-- ===== src/Sleep/Loops.antt =====
-- `while (running) { sleeper.sleep_for(duration); clean }`, as the thread's own steps.
use huntind.Common.{
  ℕ, zero, suc, ◌+◌, ◌≤◌, ◌≡◌, refl, Bool, true, false, if◌then◌else◌, none, arith,
}
use huntind.Sleep.{InterruptibleSleep, new_sleeper, sleep_for, wakeup}

-- Where the thread is: before the test, asleep, in the cleaning, or behind the loop.
pub data Phase : Type 0 where
  testing asleep cleaning ended : Phase

-- `waited` is the time that the thread has slept, `rounds` how often it has cleaned.
pub record Cleaner : Type 0 where
  pub running : Bool
  pub sleeper : InterruptibleSleep
  pub phase : Phase
  pub rounds : ℕ
  pub waited : ℕ

unfoldable pub new_cleaner : Cleaner
new_cleaner = record {
  running = true;
  sleeper = new_sleeper;
  phase = testing;
  rounds = 0;
  waited = 0;
}

abbrev step_at : (duration : ℕ) → Cleaner → Phase → Cleaner
step_at duration c testing = record c { phase = if c.running then asleep else ended }
step_at duration c asleep = record c {
  phase = cleaning;
  waited = c.waited + sleep_for duration none c.sleeper;
}
step_at duration c cleaning = record c { phase = testing; rounds = c.rounds + 1 }
step_at duration c ended = c

-- The next step of the thread, if nobody wakes it before the time is over.
unfoldable pub cleaner_step : (duration : ℕ) → Cleaner → Cleaner
cleaner_step duration c = step_at duration c c.phase

unfoldable pub cleaner_steps : (n duration : ℕ) → Cleaner → Cleaner
cleaner_steps zero duration c = c
cleaner_steps (suc n) duration c = cleaner_steps n duration (cleaner_step duration c)

-- What the destructors do before they join the thread: `~KafkaSink` wakes first, `~TaskExecutor` last.
unfoldable pub stop_cleaner : Cleaner → Cleaner
stop_cleaner c = record c { sleeper = wakeup c.sleeper; running = false }

-- A thread that has left its loop stays there.
ended_steps :
    (n duration : ℕ) (c : Cleaner)
    → cleaner_steps n duration (record c { phase = ended }) ≡ record c { phase = ended }
unfolding cleaner_steps cleaner_step
ended_steps zero duration c = refl
ended_steps (suc n) duration c = ended_steps n duration c

abbrev Ended : Cleaner → Cleaner → Type 0
Ended c end = (end.phase ≡ ended) × (end.waited ≡ c.waited) × (end.rounds ≤ c.rounds + 1)

stopped_from :
    (n duration : ℕ) (c : Cleaner) (p : Phase)
    → Ended c (cleaner_steps (suc (suc (suc n))) duration (stop_cleaner (record c { phase = p })))
unfolding cleaner_steps stop_cleaner cleaner_step wakeup sleep_for
stopped_from n duration c testing =
    rw (ended_steps (suc (suc n)) duration (stop_cleaner c)) (refl, refl, omega arith)
stopped_from n duration c asleep =
    let rested = record (stop_cleaner c) { rounds = c.rounds + 1; waited = c.waited + 0 } in
    rw (ended_steps n duration rested) (refl, omega arith, omega arith)
stopped_from n duration c cleaning =
    let cleaned = record (stop_cleaner c) { rounds = c.rounds + 1 } in
    rw (ended_steps (suc n) duration cleaned) (refl, refl, omega arith)
stopped_from n duration c ended =
    rw (ended_steps (suc (suc (suc n))) duration (stop_cleaner c)) (refl, refl, omega arith)

-- A cleaning loop whose sleeper is woken and whose flag is cleared is at its end after three steps
-- of its own, wherever it was, without waiting any more, and with at most one more round of
-- cleaning.
pub stop_cleaner-ends :
    (n duration : ℕ) (c : Cleaner)
    → let end = cleaner_steps (suc (suc (suc n))) duration (stop_cleaner c) in
      (end.phase ≡ ended) × (end.waited ≡ c.waited) × (end.rounds ≤ c.rounds + 1)
stop_cleaner-ends n duration c = stopped_from n duration c c.phase
