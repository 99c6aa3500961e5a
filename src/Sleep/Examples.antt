-- ===== src/Sleep/Examples.antt =====
-- A cleaner that is asleep for the second time, and the theorem of the loop on it.
use huntind.Common.{◌+◌, ◌≤◌, ◌≡◌, true}
use huntind.Sleep.{new_sleeper}
use huntind.Sleep.Loops.{Cleaner, asleep, ended, cleaner_steps, stop_cleaner, stop_cleaner-ends}

abbrev second_sleep : Cleaner
second_sleep = record {
  running = true;
  sleeper = new_sleeper;
  phase = asleep;
  rounds = 1;
  waited = 60;
}

stop_cleaner-ends_example :
    let end = cleaner_steps 5 60 (stop_cleaner second_sleep) in
    (end.phase ≡ ended) × (end.waited ≡ 60) × (end.rounds ≤ 1 + 1)
stop_cleaner-ends_example = stop_cleaner-ends 2 60 second_sleep
