-- ===== src/Helpers.antt =====
-- The helpers of include/hound: compress_string.hpp, common/timer.hpp, scope_guard.hpp, the literals and the
-- clock of common/util.hpp, the keys of sink/kafka/constants.hpp, and the globals of main.cpp.
pub mod Zstd
pub mod Timer
mod Examples
use huntind.Common.{ℕ, ◌*◌, ◌/◌, ◌%◌, ◌^◌, ◌+◌, List, [], ◌∷◌}
use huntind.Common.Outcome.{Outcome, ok, fault}
use huntind.Strings.{Text, codes}
use huntind.Settings.{CaptureOption, default_option}
use huntind.Kafka.Pool.{ProducerPool}

-- `operator""_B`, `_KB`, `_MB` and `_GB`: shifts of a number of 64 bits.
abbrev pub bytes : ℕ → ℕ
bytes n = n

abbrev pub kilobytes : ℕ → ℕ
kilobytes n = n * 2 ^ 10 % 2 ^ 64

abbrev pub megabytes : ℕ → ℕ
megabytes n = n * 2 ^ 20 % 2 ^ 64

abbrev pub gigabytes : ℕ → ℕ
gigabytes n = n * 2 ^ 30 % 2 ^ 64

-- `timestampNow`: the time since the epoch, in nanoseconds, in units of `unit` nanoseconds.
abbrev pub timestamp_now : (unit now : ℕ) → ℕ
timestamp_now unit now = now / unit

-- A scope that holds a `scope_guard`: the action runs at its end, also behind an exception.
unfoldable pub with_guard {ℓ} :
    {State Result : Type ℓ}
    → (collect : State → State) → (State → State × Outcome Result)
    → State
    → State × Outcome Result
with_guard collect body s = let (t, result) = body s in (collect t, result)

-- The globals of the program; the counter of blocked flows is a signed number of 64 bits that starts at 0.
pub record Globals (Producer : Type 0) : Type 0 where
  pub opt : CaptureOption
  pub producer_pool : ProducerPool Producer
  pub num_blocked_flows : ℕ
  pub max_send_batch : ℕ
  pub max_encode_batch : ℕ

abbrev pub new_globals : {Producer : Type 0} → Globals Producer
new_globals = record {
  opt = default_option;
  producer_pool = record { producers = []; created = 0 };
  num_blocked_flows = 0;
  max_send_batch = 1500;
  max_encode_batch = 1500;
}

-- `hd::keys`
abbrev pub kafka_keys : List Text
kafka_keys =
    codes "kafka.brokers"
    ∷ codes "kafka.topic"
    ∷ codes "kafka.partition"
    ∷ codes "kafka.pool.init-size"
    ∷ codes "kafka.pool.maxSize"
    ∷ codes "kafka.conn.maxIdleSeconds"
    ∷ codes "kafka.conn.timeoutSeconds"
    ∷ []
