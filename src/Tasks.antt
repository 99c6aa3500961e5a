-- ===== src/Tasks.antt =====
-- source/task_executor.cpp: a thread that starts the tasks of a queue, each on a cpu of its own. The
-- loop of the thread and the other threads are interleaved steps; what a task does is not modelled.
pub mod Order
pub mod Shutdown
mod Examples
use huntind.Common.{
  ℕ, ◌+◌, ◌%◌, ◌^◌, ◌≡◌, List, [], ◌∷◌, ◌++◌, Bool, true, false, ◌==◌, if◌then◌else◌,
}
use huntind.Common.Outcome.{Outcome, ok, fault, division_by_zero}

-- Where the thread is: before the test of the loop, in the wait, or behind the loop.
pub data Phase : Type 0 where
  testing waiting finished : Phase

-- A started task: its cpu, and whether its future is ready.
pub record Started (Task : Type 0) : Type 0 where
  pub task : Task
  pub cpu_id : ℕ
  pub ready : Bool

pub record Executor (Task : Type 0) : Type 0 where
  pub running : Bool
  pub phase : Phase
  pub tasks : List (Task × ℕ)
  pub next_cpu_id : ℕ
  pub adding : List (Task × ℕ)
  pub futures : List (Started Task)
  pub history : List (Task × ℕ)

module _ {Task : Type 0} where
  unfoldable pub new_executor : Executor Task
  new_executor = record {
    running = true;
    phase = testing;
    tasks = [];
    next_cpu_id = 8;
    adding = [];
    futures = [];
    history = [];
  }

  -- The begin of `AddTask`, without a lock: `next_cpu_id.fetch_add(1) % num_cpus`, on unsigned numbers
  -- of 32 bits. The caller goes on with its task and cpu.
  unfoldable pub take_cpu : (num_cpus : ℕ) → Task → Executor Task → Outcome (Executor Task)
  take_cpu num_cpus task e =
      if num_cpus == 0
      then fault division_by_zero
      else ok (record e {
        adding = e.adding ++ ((task, e.next_cpu_id % num_cpus) ∷ []);
        next_cpu_id = (e.next_cpu_id + 1) % 2 ^ 32;
      })

  -- The rest of `AddTask`, under the lock; `others` are the callers that have not come to it.
  unfoldable pub emplace_task :
      Executor Task → (others : List (Task × ℕ)) → Task × ℕ → Executor Task
  emplace_task e others item = record e { adding = others; tasks = e.tasks ++ (item ∷ []) }

  -- What the thread does with the front of the queue.
  abbrev pub start_task : Executor Task → (Task × ℕ) → List (Task × ℕ) → Executor Task
  start_task e (task, cpu_id) rest = record e {
    phase = testing;
    tasks = rest;
    futures = e.futures ++ (record { task = task; cpu_id = cpu_id; ready = false } ∷ []);
    history = e.history ++ ((task, cpu_id) ∷ []);
  }

  -- `remove_if` on the futures that are ready.
  abbrev pub clean_futures : List (Started Task) → List (Started Task)
  clean_futures [] = []
  clean_futures (f ∷ futures) =
      let rest = clean_futures futures in if f.ready then rest else f ∷ rest

  -- `SetThreadAffinity`: the cpus on which the thread of a started task may run.
  abbrev pub thread_affinity : Started Task → (cpu_id : ℕ) → Bool
  thread_affinity f cpu_id = cpu_id == f.cpu_id

  -- The last arguments are the task for which a step takes a cpu, and what it adds to the queue.
  pub data Step (num_cpus : ℕ) (e : Executor Task)
      : Executor Task → List Task → List (Task × ℕ) → Type 0 where
    begin_add :
        (task : Task) (next : Executor Task)
        → take_cpu num_cpus task e ≡ ok next
        → Step num_cpus e next (task ∷ []) []
    end_add :
        (before after : List (Task × ℕ)) (item : Task × ℕ)
        → e.adding ≡ before ++ item ∷ after
        → Step num_cpus e (emplace_task e (before ++ after) item) [] (item ∷ [])
    enter :
        e.phase ≡ testing → e.running ≡ true → Step num_cpus e (record e { phase = waiting }) [] []
    leave_test :
        e.phase ≡ testing
        → e.running ≡ false
        → Step num_cpus e (record e { phase = finished }) [] []
    leave_wait :
        e.phase ≡ waiting
        → e.running ≡ false
        → e.tasks ≡ []
        → Step num_cpus e (record e { phase = finished }) [] []
    take_task :
        (front : Task × ℕ) (rest : List (Task × ℕ))
        → e.phase ≡ waiting
        → e.tasks ≡ front ∷ rest
        → Step num_cpus e (start_task e front rest) [] []
    finish :
        (before after : List (Started Task)) (f : Started Task)
        → e.futures ≡ before ++ f ∷ after
        → Step num_cpus e (record e { futures = before ++ record f { ready = true } ∷ after }) [] []
    clean : Step num_cpus e (record e { futures = clean_futures e.futures }) [] []
    stop : Step num_cpus e (record e { running = false }) [] []

  pub data Run (num_cpus : ℕ) : Executor Task → List Task → List (Task × ℕ) → Type 0 where
    start : Run num_cpus new_executor [] []
    later :
        {s t : Executor Task} {asked new : List Task} {queued items : List (Task × ℕ)}
        → Run num_cpus s asked queued
        → Step num_cpus s t new items
        → Run num_cpus t (asked ++ new) (queued ++ items)
