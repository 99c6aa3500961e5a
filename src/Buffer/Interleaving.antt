-- ===== src/Buffer/Interleaving.antt =====
-- Any number of producers and readers on one buffer. A producer loads `current` and adds its item
-- later; a reader loads `current`, stores the other index, and swaps the queue out later, under
-- `read_`. Each load and store is one step, adding and swapping have a begin and an end, and steps of
-- different threads come in any order. `enqueue` takes no lock, so that an item can be added to a
-- container that is being swapped, which neither container allows: the run has then raced, and from
-- there on anything can happen.
use mathlib.Core.List.{Perm, perm_middle}
use mathlib.Core.List.Perm
use huntind.Common.{
  ℕ, ◌≡◌, refl, ap, List, [], ◌∷◌, ◌++◌, append-nil, append_assoc, Bool-cases, inl, inr, ◌==◌, Bool,
  true, false, not, ◌||◌, ◌&&◌, Option, none, some, sym, ◌∙◌, arith,
}
use huntind.Buffer.{DoubleBuffer, empty, queue_at, set_queue, next_queue}

-- The buffer, the items that producers are about to add with the index that they loaded, those that
-- they are adding, the readers between load and store, those that wait for `read_`, the one that
-- swaps, the items handed out, and whether two calls that exclude each other have met.
pub record System {ℓ} (A : Type ℓ) : Type ℓ where
  pub buffer : DoubleBuffer A
  pub adding : List (ℕ × A)
  pub writing : List (ℕ × A)
  pub loaded : List ℕ
  pub stored : List ℕ
  pub swapping : Option ℕ
  pub handed_out : List A
  pub raced : Bool

abbrev is_swapped : (i : ℕ) → Option ℕ → Bool
is_swapped i none = false
is_swapped i (some j) = i == j

or-left : (a b : Bool) → (a || b) ≡ false → a ≡ false
or-left a b h = ground arith

module _ {ℓ} {A : Type ℓ} where
  -- Whether a producer is adding to a queue.
  abbrev pub is_written : (i : ℕ) → List (ℕ × A) → Bool
  is_written i [] = false
  is_written i ((j, a) ∷ rest) = i == j || is_written i rest

  -- The calls of `enqueue` of a ConcurrentQueue (`concurrent`) may overlap, those of `emplace_back` on a
  -- vector may not. The last argument of a step is what it offers to the buffer.
  pub data Step (concurrent : Bool) (s : System A) : System A → List A → Type ℓ where
    produce :
        (item : A)
        → Step concurrent s (record s { adding = (s.buffer.current, item) ∷ s.adding }) (item ∷ [])
    begin_add :
        (before after : List (ℕ × A)) (i : ℕ) (item : A)
        → s.adding ≡ before ++ (i, item) ∷ after
        → Step concurrent s
            (record s {
              adding = before ++ after;
              writing = (i, item) ∷ s.writing;
              raced =
                  s.raced
                  || (is_swapped i s.swapping || (not concurrent && is_written i s.writing));
            })
            []
    end_add :
        (before after : List (ℕ × A)) (i : ℕ) (item : A)
        → s.writing ≡ before ++ (i, item) ∷ after
        → Step concurrent s
            (record s {
              buffer = set_queue s.buffer i (queue_at s.buffer i ++ (item ∷ []));
              writing = before ++ after;
            })
            []
    load : Step concurrent s (record s { loaded = s.buffer.current ∷ s.loaded }) []
    store :
        (before after : List ℕ) (i : ℕ)
        → s.loaded ≡ before ++ i ∷ after
        → Step concurrent s
            (record s {
              buffer = record s.buffer { current = next_queue i };
              loaded = before ++ after;
              stored = i ∷ s.stored;
            })
            []
    begin_swap :
        (before after : List ℕ) (i : ℕ)
        → s.stored ≡ before ++ i ∷ after
        → s.swapping ≡ none
        → Step concurrent s
            (record s {
              stored = before ++ after;
              swapping = some i;
              raced = s.raced || is_written i s.writing;
            })
            []
    end_swap :
        (i : ℕ)
        → s.swapping ≡ some i
        → Step concurrent s
            (record s {
              buffer = set_queue s.buffer i [];
              swapping = none;
              handed_out = s.handed_out ++ queue_at s.buffer i;
            })
            []
    undefined :
        (t : System A) (new : List A) → s.raced ≡ true → t.raced ≡ true → Step concurrent s t new

  abbrev pub init : System A
  init = record {
    buffer = empty;
    adding = [];
    writing = [];
    loaded = [];
    stored = [];
    swapping = none;
    handed_out = [];
    raced = false;
  }

  pub data Run (concurrent : Bool) : System A → List A → Type ℓ where
    start : Run concurrent init []
    later :
        {s t : System A} {offered new : List A}
        → Run concurrent s offered
        → Step concurrent s t new
        → Run concurrent t (new ++ offered)

  abbrev pub items : List (ℕ × A) → List A
  items [] = []
  items ((i, a) ∷ rest) = a ∷ items rest

  -- Where an offered item can be.
  unfoldable pub held : System A → List A
  held s =
      items s.adding ++ (items s.writing ++ (s.handed_out ++ (s.buffer.queue0 ++ s.buffer.queue1)))

  items-append : (xs ys : List (ℕ × A)) → items (xs ++ ys) ≡ items xs ++ items ys
  items-append [] ys = refl
  items-append ((i, a) ∷ xs) ys = ap (λ t. a ∷ t) (items-append xs ys)

  append-perm : (xs ys : List A) → Perm (xs ++ ys) (ys ++ xs)
  append-perm [] ys = rw append-nil (Perm.refl ys)
  append-perm (x ∷ xs) ys =
      Perm.trans (Perm.cons x (append-perm xs ys)) (Perm.symm (perm_middle ys xs))

  module _ (moving out first second : List A) where
    perm-add_first :
        (a : A)
        → Perm
            (moving ++ (out ++ ((first ++ (a ∷ [])) ++ second)))
            (a ∷ (moving ++ (out ++ (first ++ second))))
    perm-add_first a =
        simp append_assoc
          (simp append_assoc at (perm_middle {a = a} (moving ++ (out ++ first)) second))

    perm-add_second :
        (a : A)
        → Perm
            (moving ++ (out ++ (first ++ (second ++ (a ∷ [])))))
            (a ∷ (moving ++ (out ++ (first ++ second))))
    perm-add_second a =
        simp (append_assoc, append-nil) at
          (perm_middle {a = a} (moving ++ (out ++ (first ++ second))) [])

    perm-swap_second :
        Perm (moving ++ ((out ++ second) ++ (first ++ []))) (moving ++ (out ++ (first ++ second)))
    perm-swap_second =
        Perm.append_left moving
          (simp (append_assoc, append-nil) (Perm.append_left out (append-perm second first)))

  add_to :
      (s : System A) (moving : List A) (i : ℕ) (a : A)
      → let b = set_queue s.buffer i (queue_at s.buffer i ++ (a ∷ [])) in
        Perm
          (moving ++ (s.handed_out ++ (b.queue0 ++ b.queue1)))
          (a ∷ (moving ++ (s.handed_out ++ (s.buffer.queue0 ++ s.buffer.queue1))))
  add_to s moving i a = elim (Bool-cases (i == 0)) [
    | inl e ↦ rw e (perm-add_first moving s.handed_out s.buffer.queue0 s.buffer.queue1 a)
    | inr e ↦ rw e (perm-add_second moving s.handed_out s.buffer.queue0 s.buffer.queue1 a)
  ]

  swap_out :
      (s : System A) (moving : List A) (i : ℕ)
      → let b = set_queue s.buffer i [] in
        Perm
          (moving ++ ((s.handed_out ++ queue_at s.buffer i) ++ (b.queue0 ++ b.queue1)))
          (moving ++ (s.handed_out ++ (s.buffer.queue0 ++ s.buffer.queue1)))
  swap_out s moving i = elim (Bool-cases (i == 0)) [
    | inl e ↦ rw e (simp append_assoc (Perm.refl _))
    | inr e ↦ rw e (perm-swap_second moving s.handed_out s.buffer.queue0 s.buffer.queue1)
  ]

  -- An item that is taken out of the middle of a list and put before another.
  perm-move :
      (before after rest : List A) (a : A)
      → Perm ((before ++ after) ++ (a ∷ rest)) ((before ++ a ∷ after) ++ rest)
  perm-move before after rest a =
      Perm.trans (perm_middle (before ++ after) rest)
        (simp append_assoc (Perm.symm (perm_middle before (after ++ rest))))

  Step-raced :
      {concurrent : Bool} {s t : System A} {new : List A}
      → Step concurrent s t new
      → t.raced ≡ false
      → s.raced ≡ false
  Step-raced (produce item) h = h
  Step-raced (begin_add before after i item e) h = or-left _ _ h
  Step-raced (end_add before after i item e) h = h
  Step-raced load h = h
  Step-raced (store before after i e) h = h
  Step-raced (begin_swap before after i e free) h = or-left _ _ h
  Step-raced (end_swap i e) h = h
  Step-raced (undefined t new was is) h = let both = sym is ∙ h in cc

  Step-held :
      {concurrent : Bool} {s t : System A} {new : List A}
      → Step concurrent s t new
      → t.raced ≡ false
      → Perm (held t) (new ++ held s)
  unfolding held
  Step-held (produce item) h = Perm.refl _
  Step-held load h = Perm.refl _
  Step-held (store before after i e) h = Perm.refl _
  Step-held (begin_swap before after i e free) h = Perm.refl _
  Step-held (undefined t new was is) h = let both = sym is ∙ h in cc
  Step-held {s = s} (begin_add before after i item e) h =
      rw (e, items-append, items-append) (perm-move (items before) (items after) _ item)
  Step-held {s = s} (end_add before after i item e) h =
      rw (e, items-append, items-append)
        (Perm.append_left (items s.adding) (
          Perm.trans (add_to s (items before ++ items after) i item)
            (simp append_assoc (Perm.symm (perm_middle (items before) _)))))
  Step-held {s = s} (end_swap i e) h =
      Perm.append_left (items s.adding) (swap_out s (items s.writing) i)

  -- After any sequence of steps of any number of producers and readers of the double buffer in
  -- which adding to a queue and swapping it have not met (nor two additions to one vector), the
  -- items with producers, handed out, and in the two queues are together a permutation of the
  -- items that were offered: none is lost and none is handed out twice.
  pub Run-held :
      {concurrent : Bool} {s : System A} {offered : List A}
      → Run concurrent s offered
      → s.raced ≡ false
      → Perm (held s) offered
  unfolding held empty
  Run-held start h = Perm.refl []
  Run-held (later {new} r st) h =
      Perm.trans (Step-held st h) (Perm.append_left new (Run-held r (Step-raced st h)))
