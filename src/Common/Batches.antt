-- ===== src/Common/Batches.antt =====
-- A list cut into batches of a given size, as the loops of source/_kafka_impl.cpp cut theirs.
use Prim.Native.Nat.{ℕ, zero, suc, ◌+◌, ◌-◌, ◌*◌, ◌/◌, ◌≤◌, ◌<◌, min}
use mathlib.Core.Path.{◌≡◌, sym, ap, ◌∙◌}
use mathlib.Core.List.{List, [], ◌∷◌, ◌++◌}
use native.Mathlib.Omega.{arith, div_any}
use native.Mathlib.Nat.{mod-lt}
use mathlib.Core.Logic.{inl, inr}
use huntind.Common.Tests.{leb, leb→le, Bool-cases}
use huntind.Common.Lists.{
  length, take, drop, length-take, length-drop, take-append-drop, drop-drop, drop-length_le,
}

-- `(data_size + max - 1) / max`
abbrev pub batch_count : (data_size max_size : ℕ) → ℕ
batch_count data_size max_size = (data_size + max_size - 1) / max_size

-- `std::min(max, data_size - offset)`
abbrev pub batch_size : (data_size max_size offset : ℕ) → ℕ
batch_size data_size max_size offset = min max_size (data_size - offset)

-- There are as many batches as are needed, and no more.
module _ (n : ℕ) {m : ℕ} (positive : 0 < m) where
  pub batch_count_le : n ≤ batch_count n m * m
  batch_count_le = grind (arith, div_any (n + m - 1) m, mod-lt (n + m - 1) positive)

  pub batch_count_lt : batch_count n m * m < n + m
  batch_count_lt = grind (arith, div_any (n + m - 1) m, mod-lt (n + m - 1) positive)

abbrev pub join {ℓ} : {A : Type ℓ} → List (List A) → List A
join [] = []
join (xs ∷ rest) = xs ++ join rest

module _ {ℓ} {A : Type ℓ} (max_size : ℕ) where
  abbrev pub batch : List A → (i : ℕ) → List A
  batch xs i = take (batch_size (length xs) max_size (i * max_size)) (drop (i * max_size) xs)

  -- Of the batches from number `i` on, the next `n`.
  abbrev pub batches_from : List A → (n i : ℕ) → List (List A)
  batches_from xs zero i = []
  batches_from xs (suc n) i = batch xs i ∷ batches_from xs n (i + 1)

  batch-append :
      (xs : List A) (i : ℕ) → batch xs i ++ drop ((i + 1) * max_size) xs ≡ drop (i * max_size) xs
  batch-append xs i =
      ap (λ ys. batch xs i ++ ys) rest_is ∙ take-append-drop n (drop (i * max_size) xs)
    where
      n : ℕ
      n = batch_size (length xs) max_size (i * max_size)

      rest_is : drop ((i + 1) * max_size) xs ≡ drop n (drop (i * max_size) xs)
      rest_is = elim (Bool-cases (leb ((i + 1) * max_size) (length xs))) [
        | inl inside ↦
            let all : (i + 1) * max_size ≡ i * max_size + n =
              ground (arith, leb→le ((i + 1) * max_size) (length xs)) in
            ap (λ k. drop k xs) all ∙ sym (drop-drop n (i * max_size) xs)
        | inr past ↦
            let over : length xs ≤ (i + 1) * max_size = ground arith in
            drop-length_le ((i + 1) * max_size) xs over
            ∙ sym
                (drop-drop n (i * max_size) xs ∙ drop-length_le (i * max_size + n) xs (omega arith))
      ]

  -- If enough batches are cut, they are what is left of the list.
  pub join-batches_from :
      (xs : List A) (n i : ℕ)
      → length xs ≤ (i + n) * max_size
      → join (batches_from xs n i) ≡ drop (i * max_size) xs
  join-batches_from xs zero i h = sym (drop-length_le (i * max_size) xs (omega arith))
  join-batches_from xs (suc n) i h =
      ap (λ ys. batch xs i ++ ys) (join-batches_from xs n (i + 1) (omega arith)) ∙ batch-append xs i

  pub length-batch :
      (xs : List A) (i : ℕ) → length (batch xs i) ≡ batch_size (length xs) max_size (i * max_size)
  length-batch xs i = omega (
    arith,
    length-take (batch_size (length xs) max_size (i * max_size)) (drop (i * max_size) xs),
    length-drop (i * max_size) xs,
  )
