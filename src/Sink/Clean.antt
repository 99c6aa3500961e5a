-- ===== src/Sink/Clean.antt =====
-- One round of `cleanUnwantedFlowTask`: long entries become flows, short ones that have timed out
-- are dropped, and the others stay.
use huntind.Common.{
  ℕ, ◌<◌, ◌≡◌, refl, sym, ap, ap₂, ◌∙◌, inl, inr, true, false, Bool-cases, List, [], ◌∷◌, ◌++◌,
  append-nil, append_assoc, length, pos, arith, All, All-append,
}
use huntind.Common.Outcome.{ok, Returns, Returns-bind, Returns-map}
use huntind.Strings.{Text}
use huntind.Settings.{CaptureOption}
use huntind.Packet.{ParsedPacket}
use huntind.Buffer.{DoubleBuffer, enqueue}
use huntind.Buffer.Sequential.{IsQuiet, enqueue-IsQuiet, pending, pending-enqueue}
use huntind.Flow.{Flow, make_flow, is_flow_ready}
use huntind.Flow.Map.{Map}
use huntind.Sink.Invariant.{is_flow_ready-le, Inv, IsEntry, IsFlow}
use huntind.Sink.{Sink}
use huntind.Sink.Merge.{make_flow-total}
use huntind.Flow.{is_timeout}
use huntind.Sink.{clean_entries, clean_unwanted_flows}
use huntind.Sink.Entries.{
  long, late, fresh, fate, kept_entries, ready_entries, AreFlowsOf, nonempty, kept_entries-All,
  make_flow-fields,
}

Cleaned :
    CaptureOption
    → ℕ
    → Map ParsedPacket
    → DoubleBuffer Flow
    → Map ParsedPacket × DoubleBuffer Flow
    → Type 0
Cleaned opt now m queue (kept, next) =
    (kept ≡ kept_entries opt now m)
    × IsQuiet next
    × ((fs : List Flow) × (pending next ≡ pending queue ++ fs)
        × AreFlowsOf (ready_entries opt m) fs)

module _ (opt : CaptureOption) (now : ℕ) (k : Text) (l : List ParsedPacket) (m : Map ParsedPacket)
    (queue : DoubleBuffer Flow) (t : Map ParsedPacket × DoubleBuffer Flow) where
  Cleaned-long :
      (f : Flow)
      → is_flow_ready opt l ≡ true
      → make_flow k l ≡ ok f
      → IsQuiet queue
      → Cleaned opt now m (enqueue queue f) t
      → Cleaned opt now ((k, l) ∷ m) queue t
  unfolding Cleaned kept_entries ready_entries
  Cleaned-long f r made q (kept, quiet, (fs, behind, are)) = rw r (
    kept,
    quiet,
    (
      f ∷ fs,
      behind ∙ rw (pending-enqueue queue f q) (append_assoc (pending queue) (f ∷ []) fs),
      (made, are),
    ),
  )

  Cleaned-late :
      is_flow_ready opt l ≡ false
      → is_timeout opt now l ≡ ok true
      → Cleaned opt now m queue t
      → Cleaned opt now ((k, l) ∷ m) queue t
  unfolding Cleaned kept_entries ready_entries
  Cleaned-late r over c = rw (r, over) c

  Cleaned-fresh :
      is_flow_ready opt l ≡ false
      → is_timeout opt now l ≡ ok false
      → Cleaned opt now m queue t
      → Cleaned opt now ((k, l) ∷ m) queue ((k, l) ∷ t.0, t.1)
  unfolding Cleaned kept_entries ready_entries
  Cleaned-fresh r young c = rw (r, young) (ap (λ rest. (k, l) ∷ rest) c.0, c.1, c.2)

module _ (opt : CaptureOption) (now : ℕ) where
  clean_entries-Returns :
      (m : Map ParsedPacket) (queue : DoubleBuffer Flow)
      → IsQuiet queue
      → All (λ e. 0 < length e.1) m
      → Returns (clean_entries opt now m queue) (Cleaned opt now m queue)
  unfolding clean_entries is_flow_ready
  clean_entries-Returns [] queue q a =
      unfold Cleaned kept_entries ready_entries in
      (refl, q, ([], sym (append-nil (pending queue)), tt))
  clean_entries-Returns ((k, l) ∷ m) queue q a = elim (fate opt now k l a.0) [
    | long r ↦
        let (f, made, _, _) = make_flow-total k l a.0 in
        rw (r, made)
          (Returns-map (clean_entries opt now m (enqueue queue f))
            (Cleaned opt now m (enqueue queue f)) (Cleaned opt now ((k, l) ∷ m) queue)
            (clean_entries-Returns m (enqueue queue f) (enqueue-IsQuiet queue f q) a.1)
            (λ t c. Cleaned-long opt now k l m queue t f r made q c))
    | late r t ↦
        rw (r, t)
          (Returns-bind (clean_entries opt now m queue) _ (Cleaned opt now m queue)
            (Cleaned opt now ((k, l) ∷ m) queue) (clean_entries-Returns m queue q a.1)
            (λ u _ c. Cleaned-late opt now k l m queue u r t c))
    | fresh r t ↦
        rw (r, t)
          (Returns-bind (clean_entries opt now m queue) _ (Cleaned opt now m queue)
            (Cleaned opt now ((k, l) ∷ m) queue) (clean_entries-Returns m queue q a.1)
            (λ u _ c. Cleaned-fresh opt now k l m queue u r t c))
  ]

module _ (opt : CaptureOption) (m : ℕ) (asked : opt.min_packets ≡ pos m) where
  ready_entries-IsFlow :
      (entries : Map ParsedPacket) (fs : List Flow)
      → All (IsEntry m) entries
      → AreFlowsOf (ready_entries opt entries) fs
      → All (IsFlow m) fs
  unfolding ready_entries
  ready_entries-IsFlow [] [] a h = tt
  ready_entries-IsFlow [] (f ∷ fs) a h = absurd h
  ready_entries-IsFlow ((k, l) ∷ entries) fs a h = elim (Bool-cases (is_flow_ready opt l)) [
    | inl r ↦ first_flow (λ gs. ready_entries-IsFlow entries gs a.1) fs r (rw r at h)
    | inr s ↦ ready_entries-IsFlow entries fs a.1 (rw s at h)
  ]
    where
      first_flow :
          ((gs : List Flow) → AreFlowsOf (ready_entries opt entries) gs → All (IsFlow m) gs)
          → (gs : List Flow) → is_flow_ready opt l ≡ true
          → AreFlowsOf ((k, l) ∷ ready_entries opt entries) gs
          → All (IsFlow m) gs
      first_flow ih [] r h = absurd h
      first_flow ih (f ∷ gs) r h =
          let (id, list) = make_flow-fields k l f h.0 in
          let long_enough = is_flow_ready-le opt m asked l r in
          ((ap₂ make_flow id list ∙ h.0, rw list (omega arith), rw (id, list) a.0.2), ih gs h.1)

  -- Under an option with a min_packets that is not negative, from a sink whose invariant holds,
  -- one cleaning round at any time returns; the invariant holds again, the table keeps exactly the
  -- entries that are too short and have not timed out, in order, and the buffer has one flow for
  -- each entry that was long enough, in order, behind the flows that were there.
  pub clean-Returns :
      (now : ℕ) (s : Sink)
      → Inv m s
      → Returns (clean_unwanted_flows opt now s) (λ t.
        Inv m t
        × (t.flow_table ≡ kept_entries opt now s.flow_table)
        × ((fs : List Flow) × (pending t.queue ≡ pending s.queue ++ fs)
            × AreFlowsOf (ready_entries opt s.flow_table) fs))
  unfolding clean_unwanted_flows Cleaned
  clean-Returns now s v =
      Returns-bind (clean_entries opt now s.flow_table s.queue) _
        (Cleaned opt now s.flow_table s.queue)
        (λ t.
          Inv m t
          × (t.flow_table ≡ kept_entries opt now s.flow_table)
          × ((fs : List Flow) × (pending t.queue ≡ pending s.queue ++ fs)
              × AreFlowsOf (ready_entries opt s.flow_table) fs))
        (clean_entries-Returns opt now s.flow_table s.queue v.quiet
          (nonempty m s.flow_table v.entries))
        λ t _ (kept, quiet, (fs, behind, are)). (
          record {
            quiet = quiet;
            entries = rw kept (kept_entries-All (IsEntry m) opt now s.flow_table v.entries);
            flows = rw behind (
                All-append (IsFlow m) (pending s.queue) fs v.flows
                  (ready_entries-IsFlow s.flow_table fs v.entries are));
          },
          kept,
          (fs, behind, are),
        )
