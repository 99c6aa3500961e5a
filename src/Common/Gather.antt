-- ===== src/Common/Gather.antt =====
-- One item among others: lists that are gathered from all of them, and what changes if one does.
use mathlib.Core.List.{Perm, Permᴰ, Perm-prop, perm_append_comm}
use mathlib.Core.Logic.{∥∥₁_elim}
use mathlib.Core.List.Perm
use huntind.Common.{
  ◌+◌, ◌≡◌, refl, ap, subst, List, [], ◌∷◌, ◌++◌, append_assoc, length, length-append, All, arith,
}
use huntind.Common.Batches.{join}

-- A list behind one more comes in front.
pub append-perm_swap : {A : Type 0} (xs ys zs : List A) → Perm (xs ++ (ys ++ zs)) (ys ++ (xs ++ zs))
append-perm_swap xs ys zs =
    subst (λ l. Perm (xs ++ (ys ++ zs)) l) (append_assoc ys xs zs)
      (subst (λ l. Perm l (ys ++ xs ++ zs)) (append_assoc xs ys zs)
        (Perm.append_right zs (perm_append_comm xs ys)))

pub join-perm_insert :
    {A : Type 0} (before after : List (List A)) (x : List A)
    → Perm (join (before ++ x ∷ after)) (x ++ join (before ++ after))
join-perm_insert [] after x = Perm.rfl
join-perm_insert (y ∷ before) after x =
    Perm.trans (Perm.append_left y (join-perm_insert before after x))
      (append-perm_swap y x (join (before ++ after)))

module _ {A : Type 0} {P Q : A → Type 0} (f : (a : A) → P a → Q a) where
  pub All-each : (xs : List A) → All P xs → All Q xs
  All-each [] a = tt
  All-each (x ∷ xs) a = (f x a.0, All-each xs a.1)

module _ {A : Type 0} (P : A → Type 0) where
  pub All-insert :
      (before after : List A) (x : A) → All P (before ++ after) → P x → All P (before ++ x ∷ after)
  All-insert [] after x a p = (p, a)
  All-insert (y ∷ before) after x a p = (a.0, All-insert before after x a.1 p)

  pub All-remove :
      (before after : List A) (x : A) → All P (before ++ x ∷ after) → P x × All P (before ++ after)
  All-remove [] after x a = a
  All-remove (y ∷ before) after x a =
      let (p, rest) = All-remove before after x a.1 in (p, (a.0, rest))

module _ {A B : Type 0} (f : A → List B) where
  abbrev pub gather : List A → List B
  gather [] = []
  gather (c ∷ cs) = f c ++ gather cs

  gather-permᴰ : {xs ys : List A} → Permᴰ xs ys → Perm (gather xs) (gather ys)
  gather-permᴰ Permᴰ.nil = Perm.rfl
  gather-permᴰ (Permᴰ.cons {a = x} {l₁ = xs} {l₂ = ys} e p) =
      subst (λ y. Perm (f x ++ gather xs) (f y ++ gather ys)) e
        (Perm.append_left (f x) (gather-permᴰ p))
  gather-permᴰ (Permᴰ.swap {a = x} {b = y} {b' = z} {l = l} e g) =
      subst (λ y'. Perm (f x ++ (f y ++ gather l)) (f y' ++ (f z ++ gather l))) g
        (subst (λ x'. Perm (f x ++ (f y ++ gather l)) (f y ++ (f x' ++ gather l))) e
          (append-perm_swap (f x) (f y) (gather l)))
  gather-permᴰ (Permᴰ.trans p q) = Perm.trans (gather-permᴰ p) (gather-permᴰ q)

  pub gather-perm : {xs ys : List A} → Perm xs ys → Perm (gather xs) (gather ys)
  gather-perm p = ∥∥₁_elim p Perm-prop (λ d. gather-permᴰ d)

  pub gather-perm_insert :
      (before after : List A) (c : A)
      → Perm (gather (before ++ c ∷ after)) (f c ++ gather (before ++ after))
  gather-perm_insert [] after c = Perm.rfl
  gather-perm_insert (b ∷ before) after c =
      Perm.trans (Perm.append_left (f b) (gather-perm_insert before after c))
        (append-perm_swap (f b) (f c) (gather (before ++ after)))

  -- One that keeps its part keeps the whole, and one that grows gives the whole as much.
  pub gather-perm_same :
      (before after : List A) (c d : A)
      → Perm (f d) (f c)
      → Perm (gather (before ++ d ∷ after)) (gather (before ++ c ∷ after))
  gather-perm_same [] after c d p = Perm.append_right (gather after) p
  gather-perm_same (b ∷ before) after c d p =
      Perm.append_left (f b) (gather-perm_same before after c d p)

  pub gather-perm_grow :
      (before after : List A) (c d : A) (new : List B)
      → Perm (f d) (new ++ f c)
      → Perm (gather (before ++ d ∷ after)) (new ++ gather (before ++ c ∷ after))
  gather-perm_grow [] after c d new p =
      subst (λ l. Perm (f d ++ gather after) l) (append_assoc new (f c) (gather after))
        (Perm.append_right (gather after) p)
  gather-perm_grow (b ∷ before) after c d new p =
      Perm.trans (Perm.append_left (f b) (gather-perm_grow before after c d new p))
        (append-perm_swap (f b) new (gather (before ++ c ∷ after)))

  pub length-gather_insert :
      (before after : List A) (c : A)
      → length (gather (before ++ c ∷ after)) ≡ length (f c) + length (gather (before ++ after))
  length-gather_insert [] after c = length-append (f c) (gather after)
  length-gather_insert (b ∷ before) after c = omega (
    arith,
    length-append (f b) (gather (before ++ c ∷ after)),
    length-append (f b) (gather (before ++ after)),
    length-gather_insert before after c,
  )

pub length-join_insert :
    {A : Type 0} (before after : List (List A)) (x : List A)
    → length (join (before ++ x ∷ after)) ≡ length x + length (join (before ++ after))
length-join_insert [] after x = length-append x (join after)
length-join_insert (y ∷ before) after x = omega (
  arith,
  length-append y (join (before ++ x ∷ after)),
  length-append y (join (before ++ after)),
  length-join_insert before after x,
)

join-gather : {A : Type 0} (xs : List (List A)) → gather (λ x. x) xs ≡ join xs
join-gather [] = refl
join-gather (x ∷ xs) = ap (λ l. x ++ l) (join-gather xs)

pub join-perm : {A : Type 0} {xs ys : List (List A)} → Perm xs ys → Perm (join xs) (join ys)
join-perm {A} {xs} {ys} p =
    subst (λ l. Perm l (join ys)) (join-gather xs)
      (subst (λ l. Perm (gather (λ x. x) xs) l) (join-gather ys) (gather-perm (λ x. x) p))
