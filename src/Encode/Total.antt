-- ===== src/Encode/Total.antt =====
-- `BuildSlideWindow` on flows that are long enough.
use huntind.Common.{
  ℕ, zero, suc, ◌+◌, ◌-◌, ◌*◌, ◌/◌, ◌%◌, ◌≤◌, ◌<◌, ◌≡◌, refl, List, [], ◌∷◌, ◌++◌, length, arith,
  All,
}
use huntind.Common.Outcome.{ok}
use huntind.Packet.{ParsedPacket}
use huntind.Flow.{Flow}
use huntind.Encode.Torch.{Tensors}
use huntind.Encode.Rows.{packet_to_tensor-total}
use huntind.Encode.Windows.{flow_rows-length, Covers, build_slide_window-Covers}
use huntind.Encode.{
  flow_rows, flow_to_tensor, five_rows, view_windows, Slides, slide_loop, stack, build_slide_window,
}

five_rows-total :
    (rows : List (List ℕ)) (k : ℕ)
    → length rows ≡ 5 * k
    → (ws : List (List ℕ)) × (five_rows rows ≡ ok ws)
unfolding five_rows
five_rows-total [] k h = ([], refl)
five_rows-total (a ∷ []) k h = absurd (omega arith)
five_rows-total (a ∷ b ∷ []) k h = absurd (omega arith)
five_rows-total (a ∷ b ∷ c ∷ []) k h = absurd (omega arith)
five_rows-total (a ∷ b ∷ c ∷ d ∷ []) k h = absurd (omega arith)
five_rows-total (a ∷ b ∷ c ∷ d ∷ e ∷ rest) k h =
    let (ws, made) = five_rows-total rest (k - 1) (omega arith) in
    ((a ++ (b ++ (c ++ d))) ∷ ws, rw made)

view_windows-total :
    (rows : List (List ℕ)) (k : ℕ)
    → length rows ≡ 5 * k
    → 0 < k
    → (ws : List (List ℕ)) × (view_windows rows ≡ ok ws)
unfolding view_windows
view_windows-total [] k h some_ = absurd (omega arith)
view_windows-total (row ∷ rows) k h some_ = five_rows-total (row ∷ rows) k h

-- A flow of five packets at least, with blobs of 128 header bytes and 20 payload bytes.
pub record IsLong (f : Flow) : Type 0 where
  pub counted : f.count ≡ length f.packet_list
  pub five : 5 ≤ f.count
  pub sized : All (λ p. length p.blob_data ≡ 148) f.packet_list

module _ (t : Tensors ℕ) where
  open t use {items}

  flow_rows-total :
      (packets : List ParsedPacket) (n protocol : ℕ)
      → n ≤ length packets
      → All (λ p. length p.blob_data ≡ 148) packets
      → (rows : List (List ℕ)) × (flow_rows t packets n protocol ≡ ok rows)
  unfolding flow_rows
  flow_rows-total packets zero protocol h a = ([], refl)
  flow_rows-total [] (suc n) protocol h a = absurd (omega arith)
  flow_rows-total (p ∷ packets) (suc n) protocol h a =
      let (row, made, size) = packet_to_tensor-total t p protocol a.0 in
      let (rows, rest) = flow_rows-total packets n protocol (omega arith) a.1 in
      (items row ∷ rows, rw (made, rest, size))

  windows-total :
      (f : Flow)
      → IsLong f
      → (rows : List (List ℕ)) × (ws : List (List ℕ)) × (flow_to_tensor t f 5 ≡ ok rows)
        × (view_windows rows ≡ ok ws)
  unfolding flow_to_tensor
  windows-total f v =
      let counted = v.counted in
      let five = v.five in
      let (rows, made) =
        flow_rows-total f.packet_list (f.count - f.count % 5) f.protocol (omega arith) v.sized in
      let size = flow_rows-length t f.packet_list _ f.protocol rows made in
      let (ws, viewed) = view_windows-total rows (f.count / 5) (omega arith) (omega arith) in
      (rows, ws, made, viewed)

  pub slide_loop-total :
      (flows : List Flow) (offset : ℕ)
      → All IsLong flows
      → (s : Slides) × (slide_loop t flows 5 offset ≡ ok s) × (length s.index_list ≡ length flows)
  unfolding slide_loop
  slide_loop-total [] offset a = (_, refl, refl)
  slide_loop-total (f ∷ flows) offset a =
      let (rows, ws, made, viewed) = windows-total f a.0 in
      let (s, rest, size) = slide_loop-total flows (offset + length ws) a.1 in
      (
        record {
          window_list = ws ++ s.window_list;
          index_list = (offset, offset + length ws) ∷ s.index_list;
        },
        rw (made, viewed, rest),
        omega arith,
      )

  pub stack-total : (s : Slides) → 0 < length s.index_list → stack s ≡ ok s
  unfolding stack
  stack-total s h = ground arith

  -- For a list of one flow or more, each of five packets or more whose blobs have 148 bytes, the
  -- windows are built without a fault, and the indices cut them into the windows of the single
  -- flows, in order, without a gap or an overlap; every flow has one window for every five
  -- packets, and one at least.
  pub build_slide_window-Returns :
      (flows : List Flow)
      → 0 < length flows
      → All IsLong flows
      → (s : Slides) × (build_slide_window t flows 5 ≡ ok s)
        × Covers t s.window_list 5 flows 0 s.index_list
  build_slide_window-Returns flows some_ a =
      let (s, looped, size) = slide_loop-total flows 0 a in
      let built : build_slide_window t flows 5 ≡ ok s =
        unfold build_slide_window in rw (looped, stack-total s (omega arith)) in
      (s, built, build_slide_window-Covers t flows 5 s built)
