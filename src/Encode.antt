-- ===== src/Encode.antt =====
-- source/flow-encode.cpp: packets become rows, flows become windows, and the windows of a batch are
-- encoded together. libtorch is not part of the repository: its tensors come in through `Tensors`.
pub mod Print
pub mod Normalise
pub mod Torch
pub mod Rows
pub mod Windows
pub mod Total
pub mod Batches
pub mod Jobs
pub mod Concurrent
pub mod Examples
use huntind.Common.{
  ℕ, zero, suc, ◌+◌, ◌-◌, ◌/◌, ◌%◌, ◌≡◌, List, [], ◌∷◌, ◌++◌, length, take, ltb, leb, ◌==◌,
  if◌then◌else◌,
}
use huntind.Common.Outcome.{Outcome, ok, fault, out_of_bounds, runtime_error, ◌>>=◌}
use huntind.Packet.{ParsedPacket, ipproto_tcp}
use huntind.Flow.{Flow}
use Torch.{Tensors}

abbrev pub n_digits : ℕ
n_digits = 148

-- Where the ports are cut out.
abbrev pub cut_end : ℕ → ℕ
cut_end protocol = if protocol == ipproto_tcp then 60 else 120

abbrev pub cut_start : ℕ → ℕ
cut_start protocol = if protocol == ipproto_tcp then 64 else 124

-- One packet is a one-dimensional tensor of bytes.
module _ (t : Tensors ℕ) where
  open t use {Tensor, from_list, items, slice, concat}

  -- What is left of a blob: not the addresses, and not the ports where it takes them to be.
  abbrev pub cut_row : Tensor → (protocol : ℕ) → Tensor
  cut_row ft protocol =
      concat (
        slice ft 0 12
        ∷ slice ft 20 (cut_end protocol)
        ∷ slice ft (cut_start protocol) n_digits
        ∷ [])

  unfoldable pub packet_to_tensor : ParsedPacket → (protocol : ℕ) → Outcome Tensor
  packet_to_tensor packet protocol =
      if ltb (length packet.blob_data) n_digits
      then fault out_of_bounds
      else ok (cut_row (from_list (take n_digits packet.blob_data)) protocol)

  -- A row of the tensor of a flow has 136 places; another size throws.
  unfoldable pub flow_rows :
      List ParsedPacket → (window_count protocol : ℕ) → Outcome (List (List ℕ))
  flow_rows packets zero protocol = ok []
  flow_rows [] (suc n) protocol = fault out_of_bounds
  flow_rows (p ∷ packets) (suc n) protocol = do
    row ← packet_to_tensor p protocol
    rest ← flow_rows packets n protocol
    if length (items row) == 136 then ok (items row ∷ rest) else fault runtime_error

  unfoldable pub flow_to_tensor : Flow → (width : ℕ) → Outcome (List (List ℕ))
  flow_to_tensor flow width =
      flow_rows flow.packet_list (flow.count - flow.count % width) flow.protocol

-- `reshape({-1, 5, 136}).slice(1, 0, 4).reshape({-1, 544})` on rows of 136: of every five rows the
-- first four are one window. The rows do not divide by five, or there is none: it throws.
unfoldable pub five_rows : List (List ℕ) → Outcome (List (List ℕ))
five_rows [] = ok []
five_rows (a ∷ b ∷ c ∷ d ∷ e ∷ rest) = do
  windows ← five_rows rest
  ok ((a ++ (b ++ (c ++ d))) ∷ windows)
five_rows _ = fault runtime_error

unfoldable pub view_windows : List (List ℕ) → Outcome (List (List ℕ))
view_windows [] = fault runtime_error
view_windows (row ∷ rows) = five_rows (row ∷ rows)

pub record Slides : Type 0 where
  pub window_list : List (List ℕ)
  pub index_list : List (ℕ × ℕ)

-- The second loop of `BuildSlideWindow`, from the offset that it has reached.
module _ (t : Tensors ℕ) where
  unfoldable pub slide_loop : List Flow → (width offset : ℕ) → Outcome Slides
  slide_loop [] width offset = ok (record { window_list = []; index_list = [] })
  slide_loop (flow ∷ flows) width offset = do
    rows ← flow_to_tensor t flow width
    viewed ← view_windows rows
    let next = offset + length viewed
    rest ← slide_loop flows width next
    ok (record {
      window_list = viewed ++ rest.window_list;
      index_list = (offset, next) ∷ rest.index_list;
    })

-- `concat(window_list, 0)` and `stack(index_list, 0)` throw if there is nothing to join.
unfoldable pub stack : Slides → Outcome Slides
stack s = elim s.index_list [ [] ↦ fault runtime_error | _ ∷ _ ↦ ok s ]

-- `BuildSlideWindow`, without the normalisation of the windows, which is on floating-point numbers.
module _ (t : Tensors ℕ) where
  unfoldable pub build_slide_window : List Flow → (width : ℕ) → Outcome Slides
  build_slide_window flows width = do s ← slide_loop t flows width 0; stack s

-- `BatchEncode`, over rows of any kind. The batch that the loop cuts out is not used: the model is
-- given all of `data` in each round. Fuel `data.size(0)` is enough if `batch_size` is not 0.
module _ {ℓ} {Row : Type ℓ} (t : Tensors Row) (forward : Tensors.Tensor t → Tensors.Tensor t) where
  open t use {Tensor, items, concat}

  unfoldable pub encode_rounds : (fuel : ℕ) → Tensor → (batch_size start : ℕ) → List Tensor
  encode_rounds zero data_ batch_size start = []
  encode_rounds (suc fuel) data_ batch_size start =
      let rest = encode_rounds fuel data_ batch_size (start + batch_size) in
      if ltb start (length (items data_)) then forward data_ ∷ rest else []

  -- `concat` of no tensor throws.
  unfoldable pub concat_results : List Tensor → Outcome Tensor
  concat_results [] = fault runtime_error
  concat_results (r ∷ rs) = ok (concat (r ∷ rs))

  unfoldable pub batch_encode : Tensor → (batch_size : ℕ) → Outcome Tensor
  batch_encode data_ batch_size =
      concat_results (encode_rounds (length (items data_)) data_ batch_size 0)

-- `MergeFlow`: one row for each flow, the greatest of its encoded windows in each place; `torch::max`
-- of no row throws.
module _ {ℓ} {Row : Type ℓ} (t : Tensors Row) (max_rows : Row → List Row → Row) where
  open t use {Tensor, items, slice}

  unfoldable pub merge_flow : Tensor → List (ℕ × ℕ) → Outcome (List Row)
  merge_flow encoded_flows [] = ok []
  merge_flow encoded_flows ((start, end) ∷ index_arr) = do
    row ← elim (items (slice encoded_flows start end)) [
      | [] ↦ fault runtime_error
      | r ∷ rs ↦ ok (max_rows r rs)
    ]
    rest ← merge_flow encoded_flows index_arr
    ok (row ∷ rest)
