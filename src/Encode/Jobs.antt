-- ===== src/Encode/Jobs.antt =====
-- source/_kafka_impl.cpp, `encode_flow_tensors` and `encode_flow_concurrently`, and `EncodeFlowList` of
-- source/kafka_sink.cpp: flows are encoded together, or in batches by as many threads.
pub mod Maxima
pub mod Accounts
use huntind.Common.{
  ℕ, zero, suc, ◌+◌, ◌*◌, ◌/◌, List, [], ◌∷◌, ◌++◌, length, ltb, leb, ◌==◌, if◌then◌else◌,
}
use huntind.Common.Batches.{batch_count, batch}
use huntind.Common.Outcome.{Outcome, ok, fault, length_error, division_by_zero, ◌>>=◌}
use huntind.Strings.{Text, to_string}
use huntind.Flow.{Flow}
use huntind.Encode.Torch.{Tensors}
use huntind.Encode.Normalise.{Numbers, Normalised, norm_windows}
use huntind.Encode.{Slides, build_slide_window, batch_encode, merge_flow}
use huntind.Helpers.Timer.{microseconds, new_elapsed_timer, destroy_timer}
use huntind.Log.{Build}

-- `aligned_count.insert(0, 6 - aligned_count.size(), ' ')`: with more than six digits the unsigned
-- difference wraps, and `insert` throws.
unfoldable pub align_count : ℕ → Outcome Text
align_count count =
    let digits = to_string count in if leb (length digits) 6 then ok digits else fault length_error

-- `count * 1000000 / _us`, where the log has level info.
abbrev pub rate : Build → (count us : ℕ) → Outcome ℕ
rate build count us =
    if build.log_level_info
    then (if us == 0 then fault division_by_zero else ok (count * 1000000 / us))
    else ok 0

-- `tensor_of` is the tensor of normalised windows, `forward` the model, `max_rows` the greatest in each
-- place, `random` what `torch::rand` gives for so many flows, and `elapsed` how many microseconds the
-- encoding of the flows takes.
module _ {Row : Type 0} (build : Build) (bytes : Tensors ℕ) (f : Numbers) (t : Tensors Row)
    (tensor_of : Normalised f → Tensors.Tensor t) (forward : Tensors.Tensor t → Tensors.Tensor t)
    (max_rows : Row → List Row → Row) (random : ℕ → List Row) (elapsed : List Flow → ℕ) where
  unfoldable pub encode_or_throw : Slides → Outcome (List Row)
  encode_or_throw s = do
    encoded_flows ← batch_encode t forward (tensor_of (norm_windows f s.window_list)) 8192
    merge_flow t max_rows encoded_flows s.index_list

  -- The timer is destroyed whether the encoding throws or not. What its destructor throws is not
  -- caught: it ends the program. After an error the rows are random.
  unfoldable pub encode_flow_tensors : List Flow → Outcome (List Row)
  encode_flow_tensors flows =
      let count = length flows in
      elim (build_slide_window bytes flows 5) [
        | fault why ↦ ok (random count)
        | ok s ↦ do
          (_, timer) ← destroy_timer microseconds (elapsed flows) (new_elapsed_timer 0 [] [])
          elim (encode_or_throw s) [
            | fault why ↦ ok (random count)
            | ok rows ↦ do _ ← align_count count; _ ← rate build count timer.elapsed; ok rows
          ]
      ]

-- What an encoder gives for all batches, in the order of the batches, and how much it took from
-- `NumBlockedFlows`. Each thread takes its own share and writes its own place of the result.
module _ {Row : Type 0} (encode : List Flow → Outcome (List Row)) (max_encode_batch : ℕ) where
  unfoldable pub encode_batches : List Flow → (n i : ℕ) → Outcome (List Row × ℕ)
  encode_batches flows zero i = ok ([], 0)
  encode_batches flows (suc n) i = do
    let part = batch max_encode_batch flows i
    feat ← encode part
    (rest, taken) ← encode_batches flows n (i + 1)
    ok (feat ++ rest, length part + taken)

  unfoldable pub encode_flow_concurrently : List Flow → Outcome (List Row × ℕ)
  encode_flow_concurrently flows =
      encode_batches flows (batch_count (length flows) max_encode_batch) 0

  unfoldable pub encode_flow_list : List Flow → Outcome (List Row × ℕ)
  encode_flow_list data_list =
      if ltb (length data_list) max_encode_batch
      then (do rows ← encode data_list; ok (rows, length data_list))
      else encode_flow_concurrently data_list
