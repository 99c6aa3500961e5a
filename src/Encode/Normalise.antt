-- ===== src/Encode/Normalise.antt =====
-- `z_score_norm` of source/flow-encode.cpp on a matrix of windows, as `BuildSlideWindow` calls it.
-- libtorch's arithmetic is a parameter: what it computes from the numbers of a row and from two numbers.
use huntind.Common.{
  ℕ, ◌≡◌, refl, ◌∙◌, List, [], ◌∷◌, length, length-map, map, Bool, ◌==◌, if◌then◌else◌,
}

-- `nan_to_num`, `nanmean` and `std` of libtorch on the numbers of a row, and whether a number is equal
-- to 0; `epsilon` is 1e-8.
pub record Numbers : Type (0 + 1) where
  pub Number : Type 0
  pub of_byte : ℕ → Number
  pub sub : Number → Number → Number
  pub div : Number → Number → Number
  pub nan_to_num : Number → Number
  pub nanmean : List Number → Number
  pub std : List Number → Number
  pub is_zero : Number → Bool
  pub epsilon : Number

module _ (f : Numbers) where
  open f use {Number, of_byte, sub, div, nan_to_num, nanmean, std, is_zero, epsilon}

  -- `torch::where(std == 0, 1e-8, std)`
  abbrev pub divisor : List Number → Number
  divisor row = let s = std row in if is_zero s then epsilon else s

  -- `nan_to_num((data - mean) / std)` on a row.
  abbrev pub normalise_row : List Number → List Number
  normalise_row row = map (λ x. nan_to_num (div (sub x (nanmean row)) (divisor row))) row

  -- A matrix, or a vector where `squeeze(1)` takes away the dimension of the one number in each row.
  pub data Normalised : Type 0 where
    matrix : List (List Number) → Normalised
    vector : List Number → Normalised

  abbrev first_numbers : List (List Number) → List Number
  first_numbers [] = []
  first_numbers ([] ∷ rows) = first_numbers rows
  first_numbers ((x ∷ row) ∷ rows) = x ∷ first_numbers rows

  -- `width` is `data.size(1)`.
  unfoldable pub z_score_norm : (width : ℕ) → List (List Number) → Normalised
  z_score_norm width rows =
      let normalized_data = map normalise_row rows in
      if width == 1 then vector (first_numbers normalized_data) else matrix normalized_data

  -- The windows of `BuildSlideWindow` have four rows of 136 numbers, one behind the other.
  unfoldable pub norm_windows : (window_list : List (List ℕ)) → Normalised
  norm_windows window_list = z_score_norm 544 (map (map of_byte) window_list)

  pub norm_windows-matrix :
      (window_list : List (List ℕ))
      → (rows : List (List Number)) × (norm_windows window_list ≡ matrix rows)
        × (length rows ≡ length window_list)
  unfolding norm_windows z_score_norm
  norm_windows-matrix window_list = (
    _,
    refl,
    length-map (map (map of_byte) window_list) normalise_row ∙ length-map window_list (map of_byte),
  )
