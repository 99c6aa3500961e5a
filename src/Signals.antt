-- ===== src/Signals.antt =====
-- The signal handler of main.cpp. `patience` is 10; the log and the terminal are left out.
pub mod Patience
mod Examples
use huntind.Common.{ℕ, ◌+◌, List, [], ◌∷◌, Bool, leb, if◌then◌else◌}
use huntind.Strings.{Text}
use huntind.Options.Tables.{signal_msgs, find_msg}
use huntind.Live.{LiveParser, stop_capture}

pub record Program : Type 0 where
  pub ctrlc : ℕ
  pub signal : ℕ
  pub parser : LiveParser

-- The program goes on, or it has ended with a message.
pub data Handled : Type 0 where
  alive : Program → Handled
  ended : Text → Handled

abbrev pub patience : ℕ
patience = 10

-- `quit_guard` on the program's counter.
unfoldable pub quit_guard : (max_count : ℕ) → Program → Handled
quit_guard max_count p =
    let counted = record p { ctrlc = p.ctrlc + 1 } in
    if leb p.ctrlc 1
    then alive counted
    else if leb max_count counted.ctrlc
    then ended (find_msg signal_msgs p.signal)
    else alive counted

-- The parser is stopped if it runs.
unfoldable pub stop_running : Program → Program
stop_running p = if p.parser.is_running then record p { parser = stop_capture p.parser } else p

-- The number of the signal is stored behind `quit_guard`.
unfoldable pub handle_signal : Program → (sig : ℕ) → Handled
handle_signal p sig = elim (quit_guard patience (stop_running p)) [
  | alive q ↦ alive (record q { signal = sig })
  | ended message ↦ ended message
]

unfoldable pub handle_signals : Program → List ℕ → Handled
handle_signals p [] = alive p
handle_signals p (sig ∷ sigs) = elim (handle_signal p sig) [
  | alive q ↦ handle_signals q sigs
  | ended message ↦ ended message
]
