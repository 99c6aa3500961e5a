-- ===== src/Encode/Print.antt =====
-- `print_shape` and `print_tensor` of source/flow-encode.cpp: what they print, as characters.
use huntind.Common.{ℕ, ℤ, ◌==◌, List, [], ◌∷◌, ◌++◌, take, if◌then◌else◌}
use huntind.Strings.{Text, codes, to_string}
use huntind.Log.{int_text}

abbrev size_texts : List ℕ → Text
size_texts [] = []
size_texts (item ∷ sizes) = to_string item ++ codes "," ++ size_texts sizes

unfoldable pub print_shape : (sizes : List ℕ) → Text
print_shape sizes = codes "Tensor shape: [" ++ size_texts sizes ++ (27 ∷ codes "[2D]\n")

abbrev pair_texts : List (ℤ × ℤ) → Text
pair_texts [] = []
pair_texts ((first, second) ∷ rows) =
    codes "(" ++ int_text first ++ codes ", " ++ int_text second ++ codes ")\n" ++ pair_texts rows

-- The first ten rows of a tensor of two dimensions and of width two. The first text is the standard
-- output, the second one the error output.
unfoldable pub print_tensor : (sizes : List ℕ) → (rows : List (ℤ × ℤ)) → Text × Text
print_tensor (n ∷ width ∷ []) rows =
    if width == 2
    then (pair_texts (take 10 rows), [])
    else ([], codes "Error: Tensor is not of shape n x 2\n")
print_tensor _ rows = ([], codes "Error: Tensor is not of shape n x 2\n")
