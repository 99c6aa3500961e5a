-- ===== src/Tasks/Order.antt =====
-- The order of the tasks, and the cpus that they get.
use mathlib.Core.List.{Perm, perm_middle}
use mathlib.Core.List.Perm
use huntind.Common.{
  ℕ, ◌+◌, ◌%◌, ◌^◌, ◌≡◌, refl, sym, ap, ◌∙◌, List, [], ◌∷◌, ◌++◌, append-nil, append_assoc,
  Bool-cases, inl, inr, ◌==◌,
}
use huntind.Common.Outcome.{ok, ok-injective}
use huntind.Tasks.{Executor, take_cpu, emplace_task, new_executor, Step, Run}

-- The tasks with the cpus that they get, counted on from `next_cpu_id`.
abbrev pub in_turn : {Task : Type 0} → (num_cpus next_cpu_id : ℕ) → List Task → List (Task × ℕ)
in_turn num_cpus next_cpu_id [] = []
in_turn num_cpus next_cpu_id (task ∷ tasks) =
    (task, next_cpu_id % num_cpus) ∷ in_turn num_cpus ((next_cpu_id + 1) % 2 ^ 32) tasks

abbrev pub cpu_after : {Task : Type 0} → (next_cpu_id : ℕ) → List Task → ℕ
cpu_after next_cpu_id [] = next_cpu_id
cpu_after next_cpu_id (task ∷ tasks) = cpu_after ((next_cpu_id + 1) % 2 ^ 32) tasks

module _ {Task : Type 0} (num_cpus : ℕ) where
  in_turn-append :
      (next : ℕ) (tasks : List Task) (task : Task)
      → in_turn num_cpus next (tasks ++ task ∷ [])
        ≡ in_turn num_cpus next tasks ++ (task, cpu_after next tasks % num_cpus) ∷ []
  in_turn-append next [] task = refl
  in_turn-append next (t ∷ tasks) task =
      ap (λ l. (t, next % num_cpus) ∷ l) (in_turn-append ((next + 1) % 2 ^ 32) tasks task)

  cpu_after-append :
      (next : ℕ) (tasks : List Task) (task : Task)
      → cpu_after next (tasks ++ task ∷ []) ≡ (cpu_after next tasks + 1) % 2 ^ 32
  cpu_after-append next [] task = refl
  cpu_after-append next (t ∷ tasks) task = cpu_after-append ((next + 1) % 2 ^ 32) tasks task

  abbrev Ordered : Executor Task → List Task → List (Task × ℕ) → Type 0
  Ordered e asked queued =
      (e.history ++ e.tasks ≡ queued)
      × Perm (queued ++ e.adding) (in_turn num_cpus 8 asked)
      × (e.next_cpu_id ≡ cpu_after 8 asked)

  take_cpu-Ordered :
      (e next : Executor Task) (task : Task) (asked : List Task) (queued : List (Task × ℕ))
      → take_cpu num_cpus task e ≡ ok next
      → Ordered e asked queued
      → Ordered next (asked ++ task ∷ []) queued
  unfolding take_cpu
  take_cpu-Ordered e next task asked queued h (order, perm, cpu) =
      elim (Bool-cases (num_cpus == 0)) [
        | inl none ↦ let thrown = rw none at h in cc
        | inr some_ ↦
            let item : Task × ℕ = (task, cpu_after 8 asked % num_cpus) in
            rw (← ok-injective (rw some_ at h), in_turn-append, cpu_after-append)
              (
                order,
                rw (cpu, ← append_assoc queued e.adding (item ∷ []))
                    (Perm.append_right (item ∷ []) perm),
                rw cpu,
              )
      ]

  -- An item that goes from the callers to the end of the queue.
  queued-perm :
      (queued before after : List (Task × ℕ)) (item : Task × ℕ)
      → Perm ((queued ++ item ∷ []) ++ (before ++ after)) (queued ++ (before ++ item ∷ after))
  queued-perm queued before after item =
      rw (append_assoc queued (item ∷ []) (before ++ after))
        (Perm.append_left queued (Perm.symm (perm_middle before after)))

  Step-Ordered :
      {s t : Executor Task} {new : List Task} {items : List (Task × ℕ)} (asked : List Task)
      (queued : List (Task × ℕ))
      → Step num_cpus s t new items
      → Ordered s asked queued
      → Ordered t (asked ++ new) (queued ++ items)
  unfolding emplace_task
  Step-Ordered {s} asked queued (Step.begin_add task next e) o =
      rw (append-nil queued) (take_cpu-Ordered s next task asked queued e o)
  Step-Ordered {s} asked queued (Step.end_add before after item e) (order, perm, cpu) =
      rw append-nil (
        sym (append_assoc s.history s.tasks (item ∷ [])) ∙ rw order,
        Perm.trans (queued-perm queued before after item) (rw e at perm),
        cpu,
      )
  Step-Ordered asked queued (Step.enter p r) o = rw (append-nil, append-nil) o
  Step-Ordered asked queued (Step.leave_test p r) o = rw (append-nil, append-nil) o
  Step-Ordered asked queued (Step.leave_wait p r e) o = rw (append-nil, append-nil) o
  Step-Ordered {s} asked queued (Step.take_task front rest p e) (order, perm, cpu) =
      rw (append-nil, append-nil)
        (append_assoc s.history (front ∷ []) rest ∙ (rw e at order), perm, cpu)
  Step-Ordered asked queued (Step.finish before after f e) o = rw (append-nil, append-nil) o
  Step-Ordered asked queued Step.clean o = rw (append-nil, append-nil) o
  Step-Ordered asked queued Step.stop o = rw (append-nil, append-nil) o

  Run-Ordered :
      {e : Executor Task} {asked : List Task} {queued : List (Task × ℕ)}
      → Run num_cpus e asked queued
      → Ordered e asked queued
  unfolding new_executor
  Run-Ordered Run.start = (refl, Perm.refl [], refl)
  Run-Ordered (Run.later r st) = Step-Ordered _ _ st (Run-Ordered r)

  -- After any sequence of steps of the executor, with any number of callers in AddTask, the tasks
  -- that were started and then those in the queue are those that came to the queue, in the order
  -- in which they came; and these together with the tasks of callers that have their cpu and have
  -- not come to the queue are, up to their order, the tasks of all callers in the order in which
  -- they took their cpus, each with the cpu whose turn it was, counted from 8.
  pub Run-in_order :
      {e : Executor Task} {asked : List Task} {queued : List (Task × ℕ)}
      → Run num_cpus e asked queued
      → (e.history ++ e.tasks ≡ queued) × Perm (queued ++ e.adding) (in_turn num_cpus 8 asked)
  Run-in_order r = let o = Run-Ordered r in (o.0, o.1)
