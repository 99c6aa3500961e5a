-- ===== src/Models/Ownership.antt =====
-- Who holds the models.
use mathlib.Core.List.{Perm, perm_middle}
use mathlib.Core.List.Perm
use huntind.Common.{ℕ, List, [], ◌++◌, append-nil, append_assoc}
use huntind.Models.{return_model, load_models, new_model_pool, System, Step, Run}

module _ {Model : Type 0} (load_on : (device : ℕ) → Model) where
  Step-owned :
      {s t : System load_on} {models : List (Model × ℕ)}
      → Step load_on s t
      → Perm (s.held ++ s.pool.models) models
      → Perm (t.held ++ t.pool.models) models
  unfolding return_model
  Step-owned {s} (Step.borrow front rest e) a =
      Perm.trans (Perm.symm (perm_middle s.held rest)) (rw e at a)
  Step-owned {s} (Step.give_back before after wrapper e) a =
      let b = rw (e, append_assoc) at a in
      let back =
        rw append-nil at (perm_middle {a = wrapper} ((before ++ after) ++ s.pool.models) []) in
      Perm.trans (rw append_assoc at back)
        (Perm.trans (rw append_assoc (Perm.symm (perm_middle before (after ++ s.pool.models)))) b)

  -- In every state that the pool of models reaches by borrowing and giving back, the models that
  -- guards hold and those in the queue, each with its device, are together a permutation of those
  -- that the constructor made.
  pub Run-owned :
      {num_gpus : ℕ} {s : System load_on}
      → Run load_on num_gpus s
      → Perm (s.held ++ s.pool.models) (load_models load_on num_gpus 0)
  unfolding new_model_pool
  Run-owned Run.start = Perm.refl _
  Run-owned (Run.later r st) = Step-owned st (Run-owned r)
