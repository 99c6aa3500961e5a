-- ===== src/Models/Examples.antt =====
-- Two models, of which one is borrowed, and the theorem on them.
use mathlib.Core.List.{Perm}
use huntind.Common.{ℕ, ◌+◌, refl, [], ◌∷◌, ◌++◌}
use huntind.Models.{load_models, new_model_pool, System, Step, Run}
use huntind.Models.Ownership.{Run-owned}

-- The model on a device is a number.
abbrev load_on : ℕ → ℕ
load_on device = device + 100

abbrev one_held : System load_on
one_held = record { pool = record { models = (101, 1) ∷ [] }; held = (100, 0) ∷ [] }

borrowed : Run load_on 2 one_held
unfolding new_model_pool load_models
borrowed = Run.later Run.start (Step.borrow (100, 0) ((101, 1) ∷ []) refl)

Run-owned_example : Perm (one_held.held ++ one_held.pool.models) (load_models load_on 2 0)
Run-owned_example = Run-owned load_on borrowed
