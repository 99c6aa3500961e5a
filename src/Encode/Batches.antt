-- ===== src/Encode/Batches.antt =====
-- The rounds of `BatchEncode`.
use huntind.Common.{
  ℕ, zero, suc, ◌+◌, ◌-◌, ◌*◌, ◌≤◌, ◌<◌, ◌≡◌, refl, ap, ◌∙◌, List, [], ◌∷◌, ◌++◌, length, take,
  drop, take-append_le, drop-append_le, length-drop, arith, ltb, leb, leb→le, ◌⊎◌, Bool-cases, inl,
  inr,
}
use huntind.Common.Outcome.{ok, ok-injective}
use huntind.Encode.Torch.{Tensors}
use huntind.Encode.{encode_rounds, concat_results, batch_encode}

take-drop-append {ℓ} :
    {A : Type ℓ} (start end : ℕ) (xs ys : List A)
    → end ≤ length xs
    → take (end - start) (drop start (xs ++ ys)) ≡ take (end - start) (drop start xs)
take-drop-append start end xs ys h = elim (Bool-cases (leb start (length xs))) [
  | inl inside ↦
      rw (drop-append_le start xs ys (leb→le _ _ inside))
        (take-append_le (end - start) (drop start xs) ys (omega (arith, length-drop start xs)))
  | inr past ↦ let nothing : end - start ≡ 0 = ground arith in rw nothing
]

module _ {ℓ} {Row : Type ℓ} (t : Tensors Row) (forward : Tensors.Tensor t → Tensors.Tensor t)
    (data_ : Tensors.Tensor t) (batch_size : ℕ) (positive : 0 < batch_size) where
  open t use {Tensor, items, slice, concat, items-slice, items-concat_nil, items-concat_cons}

  abbrev pub copies : ℕ → List Row
  copies zero = []
  copies (suc n) = items (forward data_) ++ copies n

  -- The rounds of the loop: `ceil(data_size / batch_size)`.
  rounds_bounds :
      (fuel start : ℕ)
      → length (items data_) ≤ start + fuel
      → start < length (items data_) + batch_size
      → (n : ℕ) × (length (encode_rounds t forward fuel data_ batch_size start) ≡ n)
        × (items (concat (encode_rounds t forward fuel data_ batch_size start)) ≡ copies n)
        × (length (items data_) ≤ start + n * batch_size)
        × (start + n * batch_size < length (items data_) + batch_size)
  unfolding encode_rounds
  rounds_bounds zero start h k = (0, refl, items-concat_nil, omega arith, omega arith)
  rounds_bounds (suc fuel) start h k = elim (Bool-cases (ltb start (length (items data_)))) [
    | inl more ↦
        let (n, count, e, low, high) =
          rounds_bounds fuel (start + batch_size) (omega arith) (ground arith) in
        (
          suc n,
          rw more (ap suc count),
          rw more (
              items-concat_cons (forward data_)
                (encode_rounds t forward fuel data_ batch_size (start + batch_size))
              ∙ ap (λ r. items (forward data_) ++ r) e),
          omega arith,
          omega arith,
        )
    | inr done ↦ (0, rw done, rw done items-concat_nil, ground arith, omega arith)
  ]

  concat_results-ok :
      (ts : List Tensor) → 0 < length ts → concat_results t forward ts ≡ ok (concat ts)
  unfolding concat_results
  concat_results-ok [] h = absurd (omega arith)
  concat_results-ok (r ∷ rs) h = refl

  rounds_pos : {size : ℕ} (n : ℕ) → 0 < size → size ≤ 0 + n * batch_size → 0 < n
  rounds_pos zero h k = absurd (omega arith)
  rounds_pos (suc n) h k = omega arith

  rounds-head :
      (fuel start : ℕ)
      → (encode_rounds t forward fuel data_ batch_size start ≡ [])
        ⊎ ((rest : List Tensor) × (encode_rounds t forward fuel data_ batch_size start
              ≡ forward data_ ∷ rest))
  unfolding encode_rounds
  rounds-head zero start = inl refl
  rounds-head (suc fuel) start = elim (Bool-cases (ltb start (length (items data_)))) [
    | inl more ↦ inr (encode_rounds t forward fuel data_ batch_size (start + batch_size), rw more)
    | inr done ↦ inl (rw done)
  ]

  -- With a batch size that is not 0, data of at least one row is encoded without a fault, and the
  -- result is ceil(size / batch_size) copies of what the model answers to all the data.
  pub batch_encode-copies :
      0 < length (items data_)
      → (n : ℕ) × (r : Tensor) × (batch_encode t forward data_ batch_size ≡ ok r)
        × (items r ≡ copies n)
        × (length (items data_) ≤ n * batch_size)
        × (n * batch_size < length (items data_) + batch_size)
  unfolding batch_encode
  batch_encode-copies some_ =
      let (n, count, e, low, high) =
        rounds_bounds (length (items data_)) 0 (omega arith) (omega arith) in
      (
        n,
        concat (encode_rounds t forward (length (items data_)) data_ batch_size 0),
        concat_results-ok _ (rw count (rounds_pos n some_ low)),
        e,
        omega arith,
        omega arith,
      )

  -- With a batch size that is not 0, if batch encoding gives a result, every slice of it that ends
  -- within one answer of the model is that slice of the answer.
  pub batch_encode-slice :
      (start end : ℕ) (r : Tensor)
      → end ≤ length (items (forward data_))
      → batch_encode t forward data_ batch_size ≡ ok r
      → items (slice r start end) ≡ items (slice (forward data_) start end)
  unfolding batch_encode concat_results
  batch_encode-slice start end r within h = elim (rounds-head (length (items data_)) 0) [
    | inl e ↦ let thrown = rw (e, concat_results) at h in cc
    | inr (rest, e) ↦
        let joined = rw (e, concat_results) at h in
        rw (← ok-injective joined, items-slice, items-slice, items-concat_cons (forward data_) rest)
          (take-drop-append start end (items (forward data_)) (items (concat rest)) within)
  ]
