-- ===== src/Encode/Jobs/Maxima.antt =====
-- What `encode_flow_tensors` gives for flows that are long enough.
use huntind.Common.{
  ℕ, zero, suc, ◌+◌, ◌-◌, ◌*◌, ◌/◌, ◌%◌, ◌^◌, ◌==◌, false, ◌≤◌, ◌<◌, ◌≡◌, refl, ap, ◌∙◌, List, [],
  ◌∷◌, length, length-take, length-drop, take, drop, ltb, lt→ltb, true, le→leb, Bool-cases, inl,
  inr, All, arith,
}
use huntind.Common.Outcome.{ok}
use huntind.Strings.{Text, to_string, digits_of}
use huntind.Flow.{Flow}
use huntind.Encode.Torch.{Tensors}
use huntind.Encode.Windows.{Covers}
use huntind.Encode.Total.{IsLong, build_slide_window-Returns}
use huntind.Encode.Batches.{batch_encode-copies, batch_encode-slice}
use huntind.Encode.Jobs.{align_count, encode_or_throw, rate, encode_flow_tensors}
use huntind.Encode.Normalise.{Numbers, Normalised, norm_windows, norm_windows-matrix}
use huntind.Encode.{build_slide_window, merge_flow, Slides}
use huntind.Helpers.Timer.{microseconds, new_elapsed_timer, destroy_timer, destroy_timer-branches}
use huntind.Log.{Build}

abbrev pow10 : ℕ → ℕ
pow10 zero = 1
pow10 (suc k) = 10 * pow10 k

length-digits_of :
    (fuel n k : ℕ) (acc : Text)
    → n < pow10 (suc k)
    → length (digits_of fuel n acc) ≤ suc k + length acc
length-digits_of zero n k acc h = omega arith
length-digits_of (suc fuel) n zero acc h =
    let small : ltb n 10 ≡ true = lt→ltb n 10 (omega arith) in rw small (omega arith)
length-digits_of (suc fuel) n (suc k) acc h = elim (Bool-cases (ltb n 10)) [
  | inl small ↦ rw small (omega arith)
  | inr more ↦
      rw more (omega (arith, length-digits_of fuel (n / 10) k ((48 + n % 10) ∷ acc) (omega arith)))
]

align_count-total : (n : ℕ) → n < 1000000 → (text : Text) × (align_count n ≡ ok text)
unfolding align_count to_string
align_count-total n h =
    let short = length-digits_of (suc n) n 5 [] (omega arith) in
    (to_string n, rw (le→leb (length (to_string n)) 6 (omega arith)))

cons_of {ℓ} : {A : Type ℓ} (l : List A) → 0 < length l → (x : A) × (xs : List A) × (l ≡ x ∷ xs)
cons_of [] h = absurd (omega arith)
cons_of (x ∷ xs) h = (x, xs, refl)

-- The destructor of the timer stores the time.
timed :
    (us : ℕ)
    → us < 10 ^ 9
    → (msg : Text) × (destroy_timer microseconds us (new_elapsed_timer 0 [] [])
        ≡ ok ([], record { elapsed = us; msg_buf = msg; task_name = [] }))
timed us short = elim (destroy_timer-branches microseconds us (new_elapsed_timer 0 [] [])) [
  | inl (few, (msg, size, made)) ↦ (msg, made)
  | inr (many, thrown) ↦ absurd (omega arith)
]

module _ {Row : Type 0} (build : Build) (bytes : Tensors ℕ) (f : Numbers) (t : Tensors Row)
    (tensor_of : Normalised f → Tensors.Tensor t) (forward : Tensors.Tensor t → Tensors.Tensor t)
    (max_rows : Row → List Row → Row) (random : ℕ → List Row) (elapsed : List Flow → ℕ)
    (holds : (rows : List (List (Numbers.Number f)))
      → length (Tensors.items t (tensor_of (Normalised.matrix rows))) ≡ length rows)
    (answers : (x : Tensors.Tensor t)
      → length (Tensors.items t (forward x)) ≡ length (Tensors.items t x)) where
  open t use {Tensor, items, slice}

  -- Each row is the maximum of the encoded windows that its index cuts out, and there is one at least.
  abbrev pub AreMaxima : (encoded : List Row) → List (ℕ × ℕ) → List Row → Type 0
  AreMaxima encoded [] [] = Unit
  AreMaxima encoded [] (row ∷ rows) = ⊥
  AreMaxima encoded (i ∷ index) [] = ⊥
  AreMaxima encoded ((start, end) ∷ index) (row ∷ rows) =
      ((first : Row) × (others : List Row) × (take (end - start) (drop start encoded)
          ≡ first ∷ others)
        × (row ≡ max_rows first others))
      × AreMaxima encoded index rows

  Covers-le :
      (windows : List (List ℕ)) (flows : List Flow) (offset : ℕ) (index : List (ℕ × ℕ))
      → Covers bytes windows 5 flows offset index
      → offset ≤ length windows
  Covers-le windows [] offset [] c = omega arith
  Covers-le windows [] offset (i ∷ index) c = absurd c
  Covers-le windows (f ∷ flows) offset [] c = absurd c
  Covers-le windows (f ∷ flows) offset ((start, end) ∷ index) (at_, five, filled, own, rest) =
      omega (arith, Covers-le windows flows end index rest)

  Covers-filled :
      (windows : List (List ℕ)) (flows : List Flow) (index : List (ℕ × ℕ))
      → 0 < length flows
      → Covers bytes windows 5 flows 0 index
      → 0 < length windows
  Covers-filled windows [] index some_ c = absurd (omega arith)
  Covers-filled windows (f ∷ flows) [] some_ c = absurd c
  Covers-filled windows (f ∷ flows) ((start, end) ∷ index) some_ (at_, five, filled, own, rest) =
      omega (arith, Covers-le windows flows end index rest)

  module _ (windows : List (List ℕ)) (encoded : Tensor) (forwarded : List Row)
      (sized : length forwarded ≡ length windows)
      (same : (start end : ℕ)
        → end ≤ length forwarded
        → items (slice encoded start end) ≡ take (end - start) (drop start forwarded)) where
    merge_flow_lem :
        (flows : List Flow) (offset : ℕ) (index : List (ℕ × ℕ))
        → Covers bytes windows 5 flows offset index
        → (rows : List Row) × (merge_flow t max_rows encoded index ≡ ok rows)
          × AreMaxima forwarded index rows
          × (length rows ≡ length flows)
    unfolding merge_flow
    merge_flow_lem [] offset [] c = ([], refl, tt, refl)
    merge_flow_lem [] offset (i ∷ index) c = absurd c
    merge_flow_lem (f ∷ flows) offset [] c = absurd c
    merge_flow_lem (f ∷ flows) offset ((start, end) ∷ index) (at_, five, filled, own, rest) =
        let inside = Covers-le windows flows end index rest in
        let cut = take (end - start) (drop start forwarded) in
        let some_ : 0 < length cut =
          omega (
            arith,
            length-take (end - start) (drop start forwarded),
            length-drop start forwarded,
          ) in
        let (first, others, is_cons) = cons_of cut some_ in
        let is_first : items (slice encoded start end) ≡ first ∷ others =
          same start end (omega arith) ∙ is_cons in
        let (rows, made, maxima, size) = merge_flow_lem flows end index rest in
        (
          max_rows first others ∷ rows,
          rw (is_first, made),
          ((first, others, is_cons, refl), maxima),
          ap suc size,
        )

  -- The tensor of the normalised windows has one item for each.
  length-norm_windows :
      (ws : List (List ℕ)) → length (items (tensor_of (norm_windows f ws))) ≡ length ws
  length-norm_windows ws =
      let (rows, are, size) = norm_windows-matrix f ws in rw are (holds rows ∙ size)

  rate-total : (count us : ℕ) → 0 < us → (r : ℕ) × (rate build count us ≡ ok r)
  rate-total count us some_ = elim (Bool-cases build.log_level_info) [
    | inl on ↦
        let divisible : (us == 0) ≡ false = ground arith in
        (count * 1000000 / us, rw (on, divisible))
    | inr off ↦ (0, rw off)
  ]

  pub encode_flow_tensors-Returns :
      (flows : List Flow)
      → 0 < length flows
      → length flows < 1000000
      → All IsLong flows
      → 0 < elapsed flows
      → elapsed flows < 10 ^ 9
      → (s : Slides) × (rows : List Row) × (build_slide_window bytes flows 5 ≡ ok s)
        × (encode_flow_tensors build bytes f t tensor_of forward max_rows random elapsed flows
            ≡ ok rows)
        × AreMaxima (items (forward (tensor_of (norm_windows f s.window_list)))) s.index_list rows
        × (length rows ≡ length flows)
  unfolding encode_flow_tensors encode_or_throw
  encode_flow_tensors-Returns flows some_ few a measurable short =
      let (s, built, covers) = build_slide_window-Returns bytes flows some_ a in
      let input = tensor_of (norm_windows f s.window_list) in
      let filled : 0 < length (items input) = omega (
        arith,
        length-norm_windows s.window_list,
        Covers-filled s.window_list flows s.index_list some_ covers,
      ) in
      let (n, r, encoded, _, _, _) =
        batch_encode-copies t forward input 8192 (omega arith) filled in
      let (rows, merged, maxima, size) =
        merge_flow_lem s.window_list r (items (forward input))
          (answers input ∙ length-norm_windows s.window_list)
          (λ start end within.
            batch_encode-slice t forward input 8192 (omega arith) start end r within encoded
            ∙ t.items-slice (forward input) start end)
          flows 0 s.index_list covers in
      let (text, aligned) = align_count-total (length flows) few in
      let (msg, stopped) = timed (elapsed flows) short in
      let (per_second, divided) = rate-total (length flows) (elapsed flows) measurable in
      (
        s,
        rows,
        built,
        rw (
          encode_flow_tensors, built, stopped, encode_or_throw, encoded, merged, aligned, divided,
        ),
        maxima,
        size,
      )
