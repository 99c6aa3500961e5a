-- ===== src/Encode/Windows.antt =====
-- `BuildSlideWindow`: which windows belong to which flow.
use huntind.Common.{
  ℕ, zero, suc, ◌+◌, ◌-◌, ◌*◌, ◌%◌, ◌<◌, ◌≡◌, refl, List, [], ◌∷◌, ◌++◌, append-nil, append_assoc,
  subst, length, length-append, take, drop, drop-append_length, take-append_length, arith,
}
use huntind.Common.Outcome.{Outcome, ok, ok-injective, ◌>>=◌, >>=-eq-ok}
use huntind.Packet.{ParsedPacket}
use huntind.Flow.{Flow}
use huntind.Encode.Torch.{Tensors}
use huntind.Encode.{
  packet_to_tensor, flow_rows, flow_to_tensor, five_rows, view_windows, Slides, slide_loop, stack,
  build_slide_window,
}

-- Of every five rows comes one window, and there is one at least.
pub five_rows-length :
    (rows : List (List ℕ)) (ws : List (List ℕ))
    → five_rows rows ≡ ok ws
    → 5 * length ws ≡ length rows
unfolding five_rows
five_rows-length [] ws h = ground arith
five_rows-length (a ∷ []) ws h = cc
five_rows-length (a ∷ b ∷ []) ws h = cc
five_rows-length (a ∷ b ∷ c ∷ []) ws h = cc
five_rows-length (a ∷ b ∷ c ∷ d ∷ []) ws h = cc
five_rows-length (a ∷ b ∷ c ∷ d ∷ e ∷ rest) ws h =
    let (w, found, h1) = >>=-eq-ok (five_rows rest) _ h in
    let shorter = five_rows-length rest w found in ground arith

pub view_windows-length :
    (rows ws : List (List ℕ))
    → view_windows rows ≡ ok ws
    → (5 * length ws ≡ length rows) × (0 < length ws)
unfolding view_windows
view_windows-length [] ws h = cc
view_windows-length (r ∷ rows) ws h = let n = five_rows-length (r ∷ rows) ws h in (n, omega arith)

stack-eq-ok : (r s : Slides) → stack r ≡ ok s → r ≡ s
unfolding stack
stack-eq-ok r s h = ground arith

module _ (t : Tensors ℕ) where
  pub flow_rows-length :
      (packets : List ParsedPacket) (n protocol : ℕ) (rows : List (List ℕ))
      → flow_rows t packets n protocol ≡ ok rows
      → length rows ≡ n
  unfolding flow_rows
  flow_rows-length packets zero protocol rows h = ground arith
  flow_rows-length [] (suc n) protocol rows h = cc
  flow_rows-length (p ∷ packets) (suc n) protocol rows h =
      let (row, _, h1) = >>=-eq-ok (packet_to_tensor t p protocol) _ h in
      let (rest, read, h2) = >>=-eq-ok (flow_rows t packets n protocol) _ h1 in
      let shorter = flow_rows-length packets n protocol rest read in ground arith

  abbrev pub flow_windows : Flow → (width : ℕ) → Outcome (List (List ℕ))
  flow_windows flow width = do rows ← flow_to_tensor t flow width; view_windows rows

  -- The index of each flow starts where that of the flow before ends, is not empty, and cuts the
  -- windows of that flow out of all windows; the last one ends at the end.
  abbrev pub Covers : List (List ℕ) → (width : ℕ) → List Flow → (offset : ℕ) → List (ℕ × ℕ) → Type 0
  Covers windows width [] offset [] = length windows ≡ offset
  Covers windows width [] offset (i ∷ index) = ⊥
  Covers windows width (f ∷ fs) offset [] = ⊥
  Covers windows width (f ∷ fs) offset ((start, end) ∷ index) =
      (start ≡ offset)
      × (5 * (end - start) ≡ f.count - f.count % width)
      × (start < end)
      × (flow_windows f width ≡ ok (take (end - start) (drop start windows)))
      × Covers windows width fs end index

  Covers-cons :
      (f : Flow) (fs : List Flow) (width : ℕ) (before viewed windows : List (List ℕ))
      (index : List (ℕ × ℕ))
      → flow_windows f width ≡ ok viewed
      → 5 * length viewed ≡ f.count - f.count % width
      → 0 < length viewed
      → Covers ((before ++ viewed) ++ windows) width fs (length (before ++ viewed)) index
      → Covers
          (before ++ (viewed ++ windows))
          width
          (f ∷ fs)
          (length before)
          ((length before, length before + length viewed) ∷ index)
  Covers-cons f fs width before viewed windows index own five filled rest =
      let width_is : length before + length viewed - length before ≡ length viewed = omega arith in
      (
        refl,
        omega arith,
        omega arith,
        rw
            (
              width_is,
              drop-append_length before (viewed ++ windows),
              take-append_length viewed windows,
            )
            own,
        rw (length-append before viewed, append_assoc before viewed windows) at rest,
      )

  slide_loop-Covers :
      (flows : List Flow) (width : ℕ) (before : List (List ℕ)) (s : Slides)
      → slide_loop t flows width (length before) ≡ ok s
      → Covers (before ++ s.window_list) width flows (length before) s.index_list
  unfolding slide_loop flow_to_tensor
  slide_loop-Covers [] width before s h = ground (arith, append-nil before)
  slide_loop-Covers (f ∷ fs) width before s h =
      let (rows, r1, h1) =
        >>=-eq-ok (flow_rows t f.packet_list (f.count - f.count % width) f.protocol) _ h in
      let (viewed, r2, h2) = >>=-eq-ok (view_windows rows) _ h1 in
      let (rest, r3, h3) = >>=-eq-ok (slide_loop t fs width (length before + length viewed)) _ h2 in
      let (five, some_) = view_windows-length rows viewed r2 in
      let count = flow_rows-length f.packet_list _ f.protocol rows r1 in
      let ih =
        slide_loop-Covers fs width (before ++ viewed) rest (rw (length-append before viewed) r3) in
      subst
        (λ (u : Slides).
          Covers (before ++ u.window_list) width (f ∷ fs) (length before) u.index_list)
        (ok-injective h3)
        (Covers-cons f fs width before viewed rest.window_list rest.index_list (rw (r1, r2))
          (omega arith) some_ ih)

  -- If the windows of a batch of flows are built, the indices fit them.
  pub build_slide_window-Covers :
      (flows : List Flow) (width : ℕ) (s : Slides)
      → build_slide_window t flows width ≡ ok s
      → Covers s.window_list width flows 0 s.index_list
  unfolding build_slide_window
  build_slide_window-Covers flows width s h =
      let (r, read, h1) = >>=-eq-ok (slide_loop t flows width 0) _ h in
      subst (λ (u : Slides). Covers u.window_list width flows 0 u.index_list) (stack-eq-ok r s h1)
        (slide_loop-Covers flows width [] r read)
