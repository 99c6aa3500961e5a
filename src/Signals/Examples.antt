-- ===== src/Signals/Examples.antt =====
-- Two signals, and the theorem of the handler on them.
use huntind.Common.{◌≤◌, ◌<◌, ◌≡◌, false, [], ◌∷◌, ◌⊎◌, arith}
use huntind.Strings.{Text}
use huntind.Live.{new_parser}
use huntind.Signals.{Program, alive, ended, handle_signals}
use huntind.Signals.Patience.{handle_signals-patience}

abbrev program : Program
program = record { ctrlc = 0; signal = 0; parser = new_parser }

handle_signals-patience_example :
    ((2 < 10)
      × ((q : Program) × (handle_signals program (2 ∷ 15 ∷ []) ≡ alive q)
          × (q.parser.is_running ≡ false)
          × (q.ctrlc ≡ 2)))
    ⊎ ((10 ≤ 2) × ((message : Text) × (handle_signals program (2 ∷ 15 ∷ []) ≡ ended message)))
handle_signals-patience_example = handle_signals-patience program 2 (15 ∷ []) (omega arith)
