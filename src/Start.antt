-- ===== src/Start.antt =====
-- The start of the program: `init_parameters` of main.cpp, and `OpenLiveHandle` and `SetFilter` of
-- source/util.cpp. What libpcap, CUDA and the system answer comes in through `Answers`.
pub mod Ready
mod Examples
use huntind.Common.{
  ℕ, ◌*◌, ◌^◌, List, [], ◌∷◌, Bool, true, false, Option, none, some, if◌then◌else◌,
}
use huntind.Common.Outcome.{Fault, Outcome, ok, fault, null_pointer}
use huntind.Strings.{Text}
use huntind.Settings.{CaptureOption}
use huntind.Options.{ParseResult, parsed, exited, thrown, parse_options}
use huntind.Kafka.Pool.{ProducerPool, new_pool, move_pool}

-- `find_all_devs`: none if the call fails, else the name of the first device if there is one.
pub record Answers : Type 0 where
  pub find_all_devs : Option (Option Text)
  pub open_live : (device : Text) (snaplen : ℕ) (promisc : Bool) → Bool
  pub compile : Text → Bool
  pub set_filter : Text → Bool
  pub device_count : ℕ
  pub hardware_concurrency : ℕ

pub record Handle : Type 0 where
  pub device : Text
  pub snaplen : ℕ
  pub filter : Option Text
  pub promisc : Bool
  pub active : Bool
  pub buffer_size : Option ℕ

-- `pcap_set_promisc` and `pcap_set_buffer_size`, as documented: on an activated handle, such as
-- `pcap_open_live` gives, they return an error, which the source does not test, and change nothing.
unfoldable pub set_promisc : Handle → Bool → Handle
set_promisc handle promisc = if handle.active then handle else record handle { promisc = promisc }

unfoldable pub set_buffer_size : Handle → (size : ℕ) → Handle
set_buffer_size handle size =
    if handle.active then handle else record handle { buffer_size = some size }

-- The call returns, or the program exits or dies.
pub data Started (A : Type 0) : Type 0 where
  returns : A → Started A
  exits : (status : ℕ) → Started A
  dies : Fault → Started A

infixl 5 ◌>>=◌
abbrev pub ◌>>=◌ : {A B : Type 0} → Started A → (A → Started B) → Started B
returns a >>= next = next a
exits status >>= next = exits status
dies why >>= next = dies why

unfoldable pub set_filter_of : Answers → CaptureOption → Handle → Started Handle
set_filter_of answers opt handle = elim opt.filter [
  | [] ↦ returns handle
  | c ∷ text ↦
      if answers.compile (c ∷ text)
      then (if answers.set_filter (c ∷ text)
          then returns (record handle { filter = some (c ∷ text) })
          else exits 1)
      else exits 1
]

-- With no device given, the first one; `l->name` without one is a call through null.
unfoldable pub choose_device : Answers → CaptureOption → Started CaptureOption
choose_device answers opt = elim opt.device [
  | [] ↦ elim answers.find_all_devs [
    | none ↦ exits 1
    | some none ↦ dies null_pointer
    | some (some name) ↦ returns (record opt { device = name })
  ]
  | c ∷ text ↦ returns opt
]

unfoldable pub open_live_handle : Answers → CaptureOption → Started (CaptureOption × Handle)
open_live_handle answers option = do
  opt ← choose_device answers option
  handle ←
      if answers.open_live opt.device opt.total_bytes true
      then returns (record {
        device = opt.device;
        snaplen = opt.total_bytes;
        filter = none;
        promisc = true;
        active = true;
        buffer_size = none;
      })
      else exits 1
  filtered ← set_filter_of answers opt handle
  returns (opt, set_buffer_size (set_promisc filtered true) (25 * 2 ^ 22))

abbrev pub parse_start : ParseResult → Started CaptureOption
parse_start (parsed opt) = returns opt
parse_start (exited status) = exits status
parse_start (thrown why) = dies why

abbrev pub outcome_start : {A : Type 0} → Outcome A → Started A
outcome_start (ok a) = returns a
outcome_start (fault why) = dies why

module _ {Producer : Type 0} (create : ℕ → Option Producer) (max_size : ℕ) (answers : Answers) where
  -- The global pool, which has no producer yet, takes the new one's.
  unfoldable pub init_parameters :
      CaptureOption → (argc : ℕ) → List (ℕ × Text) → Started (CaptureOption × ProducerPool Producer)
  init_parameters arg argc options = do
    opt ← parse_start (parse_options arg argc options)
    let set = record opt {
      num_gpus = answers.device_count;
      num_cpus = answers.hardware_concurrency;
    }
    pool ← outcome_start (new_pool create max_size set.pool_size)
    returns (set, (move_pool (record { producers = []; created = 0 }) pool).0)

  -- Up to the capture: the parameters, then the handle of the parser.
  unfoldable pub start_program :
      CaptureOption
      → (argc : ℕ) → List (ℕ × Text)
      → Started (CaptureOption × ProducerPool Producer × Handle)
  start_program arg argc options = do
    (opt, pool) ← init_parameters arg argc options
    (chosen, handle) ← open_live_handle answers opt
    returns (chosen, pool, handle)
