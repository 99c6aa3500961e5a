-- ===== src/Models.antt =====
-- source/model_pool.cpp: models that threads borrow and give back. A thread that finds no model waits,
-- so that there is no step for it; the guard that a borrower holds gives its model back.
pub mod Ownership
mod Examples
use huntind.Common.{ℕ, zero, suc, ◌+◌, ◌≡◌, List, [], ◌∷◌, ◌++◌, Option, none}

-- A model with its device; the front of the queue first.
pub record ModelPool (Model : Type 0) : Type 0 where
  pub models : List (Model × ℕ)

-- `ModelWrapper`, whose pointer may be null.
pub record ModelWrapper (Model : Type 0) : Type 0 where
  pub model : Option Model
  pub device : ℕ

module _ {Model : Type 0} where
  -- The move constructor, and the move assignment from another wrapper: the pointer of `other`
  -- becomes null. The assignment does not delete the model that was in `self`.
  unfoldable pub move_wrapper : ModelWrapper Model → ModelWrapper Model × ModelWrapper Model
  move_wrapper other =
      (record { model = other.model; device = other.device }, record other { model = none })

  unfoldable pub assign_wrapper :
      (self other : ModelWrapper Model) → ModelWrapper Model × ModelWrapper Model
  assign_wrapper self other =
      (record self { model = other.model; device = other.device }, record other { model = none })

  -- `getModel` and `getDeviceId` of the guard.
  abbrev pub guard_model : ModelWrapper Model → Option Model
  guard_model guard = guard.model

  abbrev pub guard_device : ModelWrapper Model → ℕ
  guard_device guard = guard.device

  -- The move assignment of a pool from another one: the queues change places.
  unfoldable pub swap_pool : (self other : ModelPool Model) → ModelPool Model × ModelPool Model
  swap_pool self other = (record { models = other.models }, record { models = self.models })

  -- `returnModel`
  unfoldable pub return_model : ModelPool Model → Model × ℕ → ModelPool Model
  return_model pool wrapper = record pool { models = pool.models ++ (wrapper ∷ []) }

  -- What the destructor deletes.
  unfoldable pub destroy_pool : ModelPool Model → List Model
  destroy_pool pool = go pool.models
    where
      go : List (Model × ℕ) → List Model
      go [] = []
      go ((model, device) ∷ models) = model ∷ go models

module _ {Model : Type 0} (load_on : (device : ℕ) → Model) where
  -- The loop of the constructor: `n` devices from `device` on.
  unfoldable pub load_models : (n device : ℕ) → List (Model × ℕ)
  load_models zero device = []
  load_models (suc n) device = (load_on device, device) ∷ load_models n (device + 1)

  unfoldable pub new_model_pool : (num_gpus : ℕ) → ModelPool Model
  new_model_pool num_gpus = record { models = load_models num_gpus 0 }

  -- The pool and what the guards hold.
  pub record System : Type 0 where
    pub pool : ModelPool Model
    pub held : List (Model × ℕ)

  pub data Step (s : System) : System → Type 0 where
    borrow :
        (front : Model × ℕ) (rest : List (Model × ℕ))
        → s.pool.models ≡ front ∷ rest
        → Step s (record { pool = record { models = rest }; held = front ∷ s.held })
    give_back :
        (before after : List (Model × ℕ)) (wrapper : Model × ℕ)
        → s.held ≡ before ++ wrapper ∷ after
        → Step s (record { pool = return_model s.pool wrapper; held = before ++ after })

  pub data Run (num_gpus : ℕ) : System → Type 0 where
    start : Run num_gpus (record { pool = new_model_pool num_gpus; held = [] })
    later : {s t : System} → Run num_gpus s → Step s t → Run num_gpus t
