-- ===== src/Flow/Map.antt =====
-- `std::map<std::string, V>` where the entries are lists: a list of entries in the order of the keys.
use huntind.Common.{◌≡◌, refl, ◌⊎◌, inl, inr, Bool-cases, List, [], ◌∷◌, if◌then◌else◌, arith, All}
use huntind.Strings.{Text, text_eq, text_lt, text_eq_iff}

abbrev pub Map : Type 0 → Type 0
Map A = List (Text × List A)

module _ {A : Type 0} where
  -- `m[key]` gives a new empty entry where there is none.
  unfoldable pub lookup : Text → Map A → List A
  lookup k [] = []
  lookup k ((j, v) ∷ m) = if text_eq j k then v else lookup k m

  unfoldable pub put : Text → List A → Map A → Map A
  put k v [] = (k, v) ∷ []
  put k v ((j, w) ∷ m) =
      if text_eq j k
      then (k, v) ∷ m
      else if text_lt k j
      then (k, v) ∷ (j, w) ∷ m
      else (j, w) ∷ put k v m

  pub lookup-put :
      (k j : Text) (v : List A) (m : Map A)
      → lookup j (put k v m) ≡ (if text_eq k j then v else lookup j m)
  unfolding lookup put
  lookup-put k j v [] = refl
  lookup-put k j v ((i, w) ∷ m) =
      ground (arith, lookup-put k j v m, text_eq_iff i k, text_eq_iff i j, text_eq_iff k j)

  pub All-put {κ} :
      (P : Text × List A → Type κ) (k : Text) (v : List A) (m : Map A)
      → P (k, v)
      → All P m
      → All P (put k v m)
  unfolding put
  All-put P k v [] h a = (h, tt)
  All-put P k v ((i, w) ∷ m) h a = elim (Bool-cases (text_eq i k)) [
    | inl same ↦ rw same (h, a.1)
    | inr other ↦ rw other (elim (Bool-cases (text_lt k i)) [
      | inl before ↦ rw before (h, a)
      | inr after ↦ rw after (a.0, All-put P k v m h a.1)
    ])
  ]

  -- What holds of every entry holds of the one that a key finds; without one it is empty.
  pub All-lookup {κ} :
      (P : Text × List A → Type κ) (k : Text) (m : Map A)
      → All P m
      → (lookup k m ≡ []) ⊎ P (k, lookup k m)
  unfolding lookup
  All-lookup P k [] a = inl refl
  All-lookup P k ((i, w) ∷ m) a = elim (Bool-cases (text_eq i k)) [
    | inl same ↦ rw same (inr (rw ((text_eq_iff i k).0 same) at a.0))
    | inr other ↦ rw other (All-lookup P k m a.1)
  ]
