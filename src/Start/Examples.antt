-- ===== src/Start/Examples.antt =====
-- A start with a device, a filter and two producers, and the theorem on it.
use huntind.Common.{ℕ, List, [], ◌∷◌, true, Option, none, some}
use huntind.Strings.{Text, codes}
use huntind.Settings.{CaptureOption, default_option}
use huntind.Start.{Answers}

abbrev answers : Answers
answers = record {
  find_all_devs = none;
  open_live = λ device snaplen promisc. true;
  compile = λ text. true;
  set_filter = λ text. true;
  device_count = 2;
  hardware_concurrency = 8;
}

abbrev create : ℕ → Option ℕ
create n = some n

-- `--device eth0 -F tcp --pool 2`
abbrev options : List (ℕ × Text)
options = (b'd', codes "eth0") ∷ (b'F', codes "tcp") ∷ (b'b', codes "2") ∷ []

abbrev chosen_option : CaptureOption
chosen_option = record default_option { device = codes "eth0"; filter = codes "tcp"; pool_size = 2 }
