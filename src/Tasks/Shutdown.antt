-- ===== src/Tasks/Shutdown.antt =====
-- `~TaskExecutor`: the flag, the wake-up of the waiting thread, and the join, as the own steps of the
-- thread in `Run`.
use huntind.Common.{
  ℕ, zero, suc, ◌+◌, ◌≤◌, ◌≡◌, refl, List, [], ◌∷◌, ◌++◌, length, Bool, true, false, if◌then◌else◌,
  Option, none, some, arith, append_assoc, Bool-cases, inl, inr, subst, sym, ap, ◌∙◌,
}
use huntind.Tasks.{Executor, Phase, testing, waiting, finished, Step, start_task}

some_of : {A : Type 0} {a b : A} → some a ≡ some b → a ≡ b
some_of h = cc

if_true {ℓ} : {A : Type ℓ} {b : Bool} (x y : A) → b ≡ true → (if b then x else y) ≡ x
if_true x y h = rw h refl

if_false {ℓ} : {A : Type ℓ} {b : Bool} (x y : A) → b ≡ false → (if b then x else y) ≡ y
if_false x y h = rw h refl

module _ {Task : Type 0} where
  -- The wait is over if there is a task or the executor is stopped; a stopped one takes a task too.
  abbrev wait_over : Executor Task → List (Task × ℕ) → Option (Executor Task)
  wait_over e [] = if e.running then none else some (record e { phase = finished })
  wait_over e (front ∷ rest) = some (start_task e front rest)

  abbrev step_at : Executor Task → Phase → Option (Executor Task)
  step_at e testing = some (record e { phase = if e.running then waiting else finished })
  step_at e waiting = wait_over e e.tasks
  step_at e finished = none

  -- The next step of the thread; none if it waits or has left its loop.
  unfoldable pub run_step : Executor Task → Option (Executor Task)
  run_step e = step_at e e.phase

  unfoldable pub run_steps : (n : ℕ) → Executor Task → Executor Task
  run_steps zero e = e
  run_steps (suc n) e = elim (run_step e) [ none ↦ e | some next ↦ run_steps n next ]

  -- The destructor sets the flag, wakes the thread and joins it.
  unfoldable pub destroy_executor : Executor Task → Executor Task
  destroy_executor e = run_steps 2 (record e { running = false })

  -- A step of the thread is a step of the executor.
  pub run_step-Step :
      {num_cpus : ℕ} (e next : Executor Task) → run_step e ≡ some next → Step num_cpus e next [] []
  unfolding run_step
  run_step-Step {num_cpus} e next h = step_of e.phase refl h
    where
      to_next :
          {u : Executor Task}
          → Step num_cpus e u [] []
          → some u ≡ some next
          → Step num_cpus e next [] []
      to_next {u} st w = subst (λ v. Step num_cpus e v [] []) (some_of w) st

      phase_is :
          {p q : Phase} → p ≡ q → some (record e { phase = p }) ≡ some (record e { phase = q })
      phase_is h = ap (λ r. some (record e { phase = r })) h

      waited :
          (tasks : List (Task × ℕ))
          → e.phase ≡ waiting
          → e.tasks ≡ tasks
          → wait_over e tasks ≡ some next
          → Step num_cpus e next [] []
      waited [] p t w = elim (Bool-cases e.running) [
        | inl on ↦ let none_is = sym (if_true _ _ on) ∙ w in cc
        | inr off ↦ to_next (Step.leave_wait p off t) (sym (if_false _ _ off) ∙ w)
      ]
      waited (front ∷ rest) p t w = to_next (Step.take_task front rest p t) w

      step_of : (p : Phase) → e.phase ≡ p → step_at e p ≡ some next → Step num_cpus e next [] []
      step_of testing p w = elim (Bool-cases e.running) [
        | inl on ↦ to_next (Step.enter p on) (phase_is (sym (if_true _ _ on)) ∙ w)
        | inr off ↦ to_next (Step.leave_test p off) (phase_is (sym (if_false _ _ off)) ∙ w)
      ]
      step_of waiting p w = waited e.tasks p refl w
      step_of finished p w = cc

  finished_steps : (n : ℕ) (e : Executor Task) → e.phase ≡ finished → run_steps n e ≡ e
  unfolding run_steps run_step
  finished_steps zero e h = refl
  finished_steps (suc n) e h = rw h refl

  abbrev Finished : ℕ → Executor Task → Executor Task → Type 0
  Finished n e end =
      (end.phase ≡ finished)
      × (run_steps (suc (suc n)) (record e { running = false }) ≡ end)
      × (end.history ++ end.tasks ≡ e.history ++ e.tasks)
      × (length e.tasks ≤ length end.tasks + 1)

  ends_from :
      (n : ℕ) (e : Executor Task) (p : Phase) (tasks : List (Task × ℕ))
      → let e' : Executor Task = record e { phase = p; tasks = tasks } in
        Finished n e' (destroy_executor e')
  unfolding destroy_executor run_steps run_step
  ends_from n e testing tasks = (refl, finished_steps (suc n) _ refl, refl, omega arith)
  ends_from n e finished tasks = (refl, refl, refl, omega arith)
  ends_from n e waiting [] = (refl, finished_steps (suc n) _ refl, refl, omega arith)
  ends_from n e waiting (front ∷ rest) =
      (refl, finished_steps n _ refl, append_assoc e.history (front ∷ []) rest, omega arith)

  -- Once the executor is stopped, its thread is behind its loop after two steps of its own,
  -- wherever it was, and further steps change nothing; the started tasks and then those in the
  -- queue are those of before, and at most one more task was started.
  pub destroy_executor-finishes :
      (n : ℕ) (e : Executor Task)
      → let end = destroy_executor e in
        (end.phase ≡ finished)
        × (run_steps (suc (suc n)) (record e { running = false }) ≡ end)
        × (end.history ++ end.tasks ≡ e.history ++ e.tasks)
        × (length e.tasks ≤ length end.tasks + 1)
  destroy_executor-finishes n e = ends_from n e e.phase e.tasks
