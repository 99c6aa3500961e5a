-- ===== src/Flow/Sorted.antt =====
-- The entries of a map stand in the order of their keys, so that a key has one entry.
use huntind.Common.{◌≡◌, refl, inl, inr, Bool-cases, true, false, List, [], ◌∷◌, arith, All}
use huntind.Strings.{Text, text_eq, text_lt, text_eq_iff}
use huntind.Flow.Map.{Map, lookup, put, All-put}

pub text_lt_trans :
    (xs ys zs : Text) → text_lt xs ys ≡ true → text_lt ys zs ≡ true → text_lt xs zs ≡ true
unfolding text_lt
text_lt_trans xs ys [] h k = cc
text_lt_trans xs [] (z ∷ zs) h k = cc
text_lt_trans [] (y ∷ ys) (z ∷ zs) h k = refl
text_lt_trans (x ∷ xs) (y ∷ ys) (z ∷ zs) h k = ground (arith, text_lt_trans xs ys zs)

pub text_lt-irreflexive : (xs : Text) → text_lt xs xs ≡ false
unfolding text_lt
text_lt-irreflexive [] = refl
text_lt-irreflexive (x ∷ xs) = ground (arith, text_lt-irreflexive xs)

-- Two different texts come in one order or in the other.
pub text_lt_total :
    (xs ys : Text) → text_eq xs ys ≡ false → text_lt ys xs ≡ false → text_lt xs ys ≡ true
unfolding text_lt text_eq
text_lt_total [] [] h k = cc
text_lt_total [] (y ∷ ys) h k = refl
text_lt_total (x ∷ xs) [] h k = cc
text_lt_total (x ∷ xs) (y ∷ ys) h k = ground (arith, text_lt_total xs ys)

module _ {A : Type 0} where
  abbrev pub IsSorted : Map A → Type 0
  IsSorted [] = Unit
  IsSorted ((k, v) ∷ m) = All (λ e. text_lt k e.0 ≡ true) m × IsSorted m

  All-below :
      (j k : Text) (m : Map A)
      → text_lt j k ≡ true
      → All (λ e. text_lt k e.0 ≡ true) m
      → All (λ e. text_lt j e.0 ≡ true) m
  All-below j k [] h a = tt
  All-below j k (e ∷ m) h a = (text_lt_trans j k e.0 h a.0, All-below j k m h a.1)

  pub put-IsSorted : (k : Text) (v : List A) (m : Map A) → IsSorted m → IsSorted (put k v m)
  unfolding put
  put-IsSorted k v [] s = (tt, tt)
  put-IsSorted k v ((j, w) ∷ m) s = elim (Bool-cases (text_eq j k)) [
    | inl same ↦ rw same (rw ((text_eq_iff j k).0 same) at s.0, s.1)
    | inr other ↦ rw other (elim (Bool-cases (text_lt k j)) [
      | inl before ↦ rw before ((before, All-below k j m before s.0), s)
      | inr after ↦ rw after (
        All-put (λ e. text_lt j e.0 ≡ true) k v m (text_lt_total j k other after) s.0,
        put-IsSorted k v m s.1,
      )
    ])
  ]

  -- A key below all of them has no entry.
  pub lookup_below : (k : Text) (m : Map A) → All (λ e. text_lt k e.0 ≡ true) m → lookup k m ≡ []
  unfolding lookup
  lookup_below k [] a = refl
  lookup_below k ((j, v) ∷ m) a = elim (Bool-cases (text_eq j k)) [
    | inl same ↦
        let e = (text_eq_iff j k).0 same in let h = rw (e, text_lt-irreflexive k) at a.0 in cc
    | inr other ↦ rw other (lookup_below k m a.1)
  ]
