-- ===== src/Signals/Patience.antt =====
-- How many signals the program stands.
use huntind.Common.{
  ℕ, ◌+◌, ◌≤◌, ◌<◌, ◌≡◌, refl, List, [], ◌∷◌, length, false, leb, leb→le, le→leb, Bool-cases, inl,
  inr, ◌⊎◌, arith,
}
use huntind.Strings.{Text}
use huntind.Live.{stop_capture}
use huntind.Options.Tables.{signal_msgs, find_msg}
use huntind.Signals.{
  patience, stop_running, Program, alive, ended, quit_guard, handle_signal, handle_signals,
}

stop_running_lem :
    (p : Program)
    → ((stop_running p).ctrlc ≡ p.ctrlc) × ((stop_running p).parser.is_running ≡ false)
unfolding stop_running stop_capture
stop_running_lem p = elim (Bool-cases p.parser.is_running) [
  | inl runs ↦ rw runs (refl, refl)
  | inr stopped ↦ rw stopped (refl, refl)
]

quit_guard-alive :
    (p : Program) → p.ctrlc < 9 → quit_guard patience p ≡ alive (record p { ctrlc = p.ctrlc + 1 })
unfolding quit_guard
quit_guard-alive p h = elim (Bool-cases (leb p.ctrlc 1)) [
  | inl few ↦ rw few
  | inr more ↦ let below : leb 10 (p.ctrlc + 1) ≡ false = ground arith in rw (more, below)
]

quit_guard-ended :
    (p : Program) → 9 ≤ p.ctrlc → quit_guard patience p ≡ ended (find_msg signal_msgs p.signal)
unfolding quit_guard
quit_guard-ended p h =
    let many : leb p.ctrlc 1 ≡ false = ground arith in
    rw (many, le→leb 10 (p.ctrlc + 1) (omega arith))

handle_signal-alive :
    (p : Program) (sig : ℕ)
    → p.ctrlc < 9
    → (q : Program) × (handle_signal p sig ≡ alive q)
      × (q.ctrlc ≡ p.ctrlc + 1)
      × (q.parser.is_running ≡ false)
unfolding handle_signal
handle_signal-alive p sig h =
    let (same, stopped) = stop_running_lem p in
    let s = stop_running p in
    (
      record s { ctrlc = s.ctrlc + 1; signal = sig },
      rw (handle_signal, quit_guard-alive s (omega arith)),
      omega arith,
      stopped,
    )

handle_signal-ended :
    (p : Program) (sig : ℕ) → 9 ≤ p.ctrlc → (message : Text) × (handle_signal p sig ≡ ended message)
unfolding handle_signal
handle_signal-ended p sig h =
    let (same, stopped) = stop_running_lem p in
    (
      find_msg signal_msgs (stop_running p).signal,
      rw (handle_signal, quit_guard-ended (stop_running p) (omega arith)),
    )

-- If at most 9 signals were handled before, then after one more or several the program is alive,
-- with its parser stopped and all signals counted, if they are fewer than 10 in all, and has ended
-- if they are 10 or more.
pub handle_signals-patience :
    (p : Program) (sig : ℕ) (sigs : List ℕ)
    → p.ctrlc ≤ 9
    → ((p.ctrlc + length (sig ∷ sigs) < 10)
        × ((q : Program) × (handle_signals p (sig ∷ sigs) ≡ alive q)
            × (q.parser.is_running ≡ false)
            × (q.ctrlc ≡ p.ctrlc + length (sig ∷ sigs))))
      ⊎ ((10 ≤ p.ctrlc + length (sig ∷ sigs))
          × ((message : Text) × (handle_signals p (sig ∷ sigs) ≡ ended message)))
unfolding handle_signals
handle_signals-patience p sig [] h = elim (Bool-cases (leb 9 p.ctrlc)) [
  | inl last ↦
      let reached = leb→le 9 p.ctrlc last in
      let (message, over) = handle_signal-ended p sig reached in
      inr (omega arith, (message, rw (handle_signals, over)))
  | inr early ↦
      let below : p.ctrlc < 9 = ground arith in
      let (q, on, count, stopped) = handle_signal-alive p sig below in
      inl (omega arith, (q, rw (handle_signals, on), stopped, omega arith))
]
handle_signals-patience p sig (s ∷ sigs) h = elim (Bool-cases (leb 9 p.ctrlc)) [
  | inl last ↦
      let reached = leb→le 9 p.ctrlc last in
      let (message, over) = handle_signal-ended p sig reached in
      inr (omega arith, (message, rw (handle_signals, over)))
  | inr early ↦
      let below : p.ctrlc < 9 = ground arith in
      let (q, on, count, stopped) = handle_signal-alive p sig below in
      elim (handle_signals-patience q s sigs (omega arith)) [
        | inl (few, (r, goes, calm, total)) ↦
            inl (omega arith, (r, rw (handle_signals, on) goes, calm, omega arith))
        | inr (many, (message, over)) ↦ inr (omega arith, (message, rw (handle_signals, on) over))
      ]
]
