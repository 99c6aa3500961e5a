-- ===== src/Tasks/Examples.antt =====
-- Two tasks, of which one is started, and the theorem of the executor on them.
use mathlib.Core.List.{Perm}
use huntind.Common.{ℕ, ◌+◌, ◌≤◌, ◌≡◌, refl, [], ◌∷◌, ◌++◌, length, true, false}
use huntind.Tasks.{
  Executor, testing, waiting, finished, take_cpu, emplace_task, new_executor, Step, Run,
}
use huntind.Tasks.Shutdown.{run_steps, destroy_executor, destroy_executor-finishes}
use huntind.Tasks.Order.{in_turn, Run-in_order}

abbrev after_start : Executor ℕ
after_start = record {
  running = true;
  phase = testing;
  tasks = (70, 0) ∷ [];
  next_cpu_id = 10;
  adding = [];
  futures = record { task = 71; cpu_id = 1; ready = false } ∷ [];
  history = (71, 1) ∷ [];
}

-- On four cpus: the caller that takes its cpu first comes to the queue last.
started : Run 4 after_start (70 ∷ 71 ∷ []) ((71, 1) ∷ (70, 0) ∷ [])
unfolding new_executor take_cpu emplace_task
started =
    let first = Run.later Run.start (Step.begin_add 70 _ refl) in
    let second = Run.later first (Step.begin_add 71 _ refl) in
    let ahead = Run.later second (Step.end_add ((70, 0) ∷ []) [] (71, 1) refl) in
    let behind = Run.later ahead (Step.end_add [] [] (70, 0) refl) in
    let entered = Run.later behind (Step.enter refl refl) in
    Run.later entered (Step.take_task (71, 1) ((70, 0) ∷ []) refl refl)

Run-in_order_example :
    (after_start.history ++ after_start.tasks ≡ (71, 1) ∷ (70, 0) ∷ [])
    × Perm ((71, 1) ∷ (70, 0) ∷ []) (in_turn {Task = ℕ} 4 8 (70 ∷ 71 ∷ []))
Run-in_order_example = Run-in_order 4 started

abbrev two_queued : Executor ℕ
two_queued = record after_start { phase = waiting; tasks = (71, 1) ∷ (72, 2) ∷ [] }

destroy_executor-finishes_example :
    let end = destroy_executor two_queued in
    (end.phase ≡ finished)
    × (run_steps 3 (record two_queued { running = false }) ≡ end)
    × (end.history ++ end.tasks ≡ two_queued.history ++ two_queued.tasks)
    × (length two_queued.tasks ≤ length end.tasks + 1)
destroy_executor-finishes_example = destroy_executor-finishes 1 two_queued
