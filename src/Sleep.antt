-- ===== src/Sleep.antt =====
-- include/hound/interruptible_sleep.hpp, and the loops that sleep with it: `cleanUnwantedFlowTask` of
-- source/kafka_sink.cpp and the cleaning thread of source/task_executor.cpp.
pub mod Loops
mod Examples
use huntind.Common.{
  ℕ, zero, suc, ◌+◌, List, [], ◌∷◌, Bool, true, false, if◌then◌else◌, Option, none, some,
}

pub record InterruptibleSleep : Type 0 where
  pub stop_requested : Bool

abbrev pub new_sleeper : InterruptibleSleep
new_sleeper = record { stop_requested = false }

-- `wakeup` sets the flag for good.
unfoldable pub wakeup : InterruptibleSleep → InterruptibleSleep
wakeup s = record s { stop_requested = true }

-- For how long `wait_for` waits: `woken` is the time of a `wakeup` in the meantime, if there is one
-- before the end.
unfoldable pub sleep_for : (duration : ℕ) → (woken : Option ℕ) → InterruptibleSleep → ℕ
sleep_for duration woken s =
    if s.stop_requested then 0 else elim woken [ none ↦ duration | some after ↦ after ]
