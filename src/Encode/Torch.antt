-- ===== src/Encode/Torch.antt =====
-- What the program relies on in libtorch: a tensor is known by the items along its first dimension.
use huntind.Common.{ℕ, ◌-◌, ◌≡◌, refl, List, [], ◌∷◌, ◌++◌, take, drop}

abbrev pub concat_lists {ℓ} : {A : Type ℓ} → List (List A) → List A
concat_lists [] = []
concat_lists (x ∷ xs) = x ++ concat_lists xs

-- `slice(0, start, end)` cuts at the end of the tensor; `concat(tensors, 0)` joins along the first
-- dimension.
pub record Tensors {ℓ} (Item : Type ℓ) : Type (ℓ + 1) where
  pub Tensor : Type ℓ
  pub items : Tensor → List Item
  pub from_list : List Item → Tensor
  pub slice : Tensor → (start end : ℕ) → Tensor
  pub concat : List Tensor → Tensor
  pub items-from_list : (xs : List Item) → items (from_list xs) ≡ xs
  pub items-slice :
      (t : Tensor) (start end : ℕ)
      → items (slice t start end) ≡ take (end - start) (drop start (items t))
  pub items-concat_nil : items (concat []) ≡ []
  pub items-concat_cons :
      (t : Tensor) (ts : List Tensor) → items (concat (t ∷ ts)) ≡ items t ++ items (concat ts)

-- Lists are such tensors.
abbrev pub list_tensors {ℓ} : (Item : Type ℓ) → Tensors Item
list_tensors Item = record {
  Tensor = List Item;
  items = λ t. t;
  from_list = λ xs. xs;
  slice = λ t start end. take (end - start) (drop start t);
  concat = concat_lists;
  items-from_list = λ xs. refl;
  items-slice = λ t start end. refl;
  items-concat_nil = refl;
  items-concat_cons = λ t ts. refl;
}
