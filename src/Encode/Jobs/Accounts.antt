-- ===== src/Encode/Jobs/Accounts.antt =====
-- Rows and blocked flows, counted.
use huntind.Common.{
  ℕ, zero, suc, ◌+◌, ◌*◌, ◌≤◌, ◌<◌, ◌≡◌, refl, ap, ◌∙◌, List, [], ◌∷◌, ◌++◌, length, length-append,
  take, drop, ltb, Bool-cases, inl, inr, All, arith,
}
use huntind.Common.Batches.{
  batch_count, batch_size, batch, batches_from, length-batch, batch_count_le, batch_count_lt, join,
  join-batches_from,
}
use huntind.Common.Outcome.{Outcome, ok}
use huntind.Flow.{Flow}
use huntind.Encode.Jobs.{encode_batches, encode_flow_concurrently, encode_flow_list}

module _ {A : Type 0} (P : A → Type 0) where
  pub All-take : (n : ℕ) (xs : List A) → All P xs → All P (take n xs)
  All-take zero xs a = tt
  All-take (suc n) [] a = tt
  All-take (suc n) (x ∷ xs) a = (a.0, All-take n xs a.1)

  pub All-drop : (n : ℕ) (xs : List A) → All P xs → All P (drop n xs)
  All-drop zero xs a = a
  All-drop (suc n) [] a = tt
  All-drop (suc n) (x ∷ xs) a = All-drop n xs a.1

module _ {Row : Type 0} (encode : List Flow → Outcome (List Row)) (max_encode_batch : ℕ)
    (positive : 0 < max_encode_batch) (Good : Flow → Type 0)
    (encodes : (fs : List Flow)
      → 0 < length fs
      → length fs ≤ max_encode_batch
      → All Good fs
      → (rows : List Row) × (encode fs ≡ ok rows) × (length rows ≡ length fs)) where
  batches_lem :
      (flows : List Flow) (n i : ℕ)
      → All Good flows
      → (i + n) * max_encode_batch < length flows + max_encode_batch
      → (rows : List Row) × (taken : ℕ) × (encode_batches encode max_encode_batch flows n i
          ≡ ok (rows, taken))
        × (length rows ≡ length (join (batches_from max_encode_batch flows n i)))
        × (taken ≡ length (join (batches_from max_encode_batch flows n i)))
  unfolding encode_batches
  batches_lem flows zero i a h = ([], 0, refl, refl, refl)
  batches_lem flows (suc n) i a h =
      let offset = i * max_encode_batch in
      let part = batch max_encode_batch flows i in
      let size = length-batch max_encode_batch flows i in
      let filled : 0 < length part = grind arith in
      let (feat, made, one_each) = encodes part filled (omega arith) (
        All-take Good (batch_size (length flows) max_encode_batch offset) (drop offset flows)
          (All-drop Good offset flows a)) in
      let (rest, taken, more, rows, count) = batches_lem flows n (i + 1) a (omega arith) in
      (
        feat ++ rest,
        length part + taken,
        rw (made, more),
        omega (
          arith,
          length-append feat rest,
          length-append part (join (batches_from max_encode_batch flows n (i + 1))),
        ),
        omega (arith, length-append part (join (batches_from max_encode_batch flows n (i + 1)))),
      )

  -- If the batch limit is not 0 and the encoder returns one row for each flow on every good list
  -- of at most that many flows, then a good list of one flow or more, of any length, is encoded
  -- without a fault, with one row for each flow, and exactly its length is taken from the count of
  -- blocked flows.
  pub encode_flow_list-Returns :
      (flows : List Flow)
      → 0 < length flows
      → All Good flows
      → (rows : List Row) × (encode_flow_list encode max_encode_batch flows
          ≡ ok (rows, length flows))
        × (length rows ≡ length flows)
  unfolding encode_flow_list encode_flow_concurrently
  encode_flow_list-Returns flows some_ a = elim (Bool-cases (ltb (length flows) max_encode_batch)) [
    | inl few ↦
        let (rows, made, one_each) = encodes flows some_ (ground arith) a in
        (rows, rw (few, made), one_each)
    | inr many ↦
        let n = batch_count (length flows) max_encode_batch in
        let whole : 0 + n ≡ n = omega arith in
        let start : 0 * max_encode_batch ≡ 0 = omega arith in
        let enough : length flows ≤ (0 + n) * max_encode_batch =
          rw whole (batch_count_le (length flows) positive) in
        let (rows, taken, made, each, count) =
          batches_lem flows n 0 a (rw whole (batch_count_lt (length flows) positive)) in
        let all =
          ap length
            (join-batches_from max_encode_batch flows n 0 enough ∙ ap (λ k. drop k flows) start) in
        (rows, rw (many, made) (ap (λ c. ok (rows, c)) (count ∙ all)), each ∙ all)
  ]
