-- ===== src/Encode/Concurrent.antt =====
-- `BuildSlideWindowConcurrently` of source/flow-encode.cpp, which is deprecated: a thread for each batch
-- of flows builds windows and indices from the offset 0, and they are joined in the order of the
-- batches.
pub mod Windows
use huntind.Common.{ℕ, ◌+◌, ◌-◌, ◌/◌, List, [], ◌∷◌, ◌++◌, length, ◌==◌, if◌then◌else◌}
use huntind.Common.Batches.{batch_count, batches_from}
use huntind.Common.Outcome.{Outcome, ok, fault, division_by_zero, ◌>>=◌}
use huntind.Flow.{Flow}
use huntind.Encode.Torch.{Tensors}
use huntind.Encode.{Slides, slide_loop, stack}

module _ (t : Tensors ℕ) where
  unfoldable pub slide_batches : List (List Flow) → (width : ℕ) → Outcome Slides
  slide_batches [] width = ok (record { window_list = []; index_list = [] })
  slide_batches (part ∷ parts) width = do
    s ← slide_loop t part width 0
    rest ← slide_batches parts width
    ok (record {
      window_list = s.window_list ++ rest.window_list;
      index_list = s.index_list ++ rest.index_list;
    })

  -- The flows of each thread.
  abbrev pub parts_of : (num_cpus : ℕ) → List Flow → List (List Flow)
  parts_of num_cpus flows =
      let size = (length flows + num_cpus - 1) / num_cpus in
      batches_from size flows (batch_count (length flows) size) 0

  unfoldable pub build_concurrently : (num_cpus : ℕ) → List Flow → (width : ℕ) → Outcome Slides
  build_concurrently num_cpus flows width =
      if num_cpus == 0
      then fault division_by_zero
      else (do s ← slide_batches (parts_of num_cpus flows) width; stack s)
