-- ===== src/Service/Spec.antt =====
-- What the sink promises for the packets of one key: they are cut into segments, in order. A segment
-- of `m` packets is sent; a shorter one may be lost; what is not cut yet is open.
use huntind.Common.{
  ℕ, ◌<◌, ◌≡◌, refl, sym, ap, ◌∙◌, List, [], ◌∷◌, ◌++◌, append-nil, append_assoc, length, All,
  All-append,
}

pub data Segment {ℓ} (A : Type ℓ) : Type ℓ where
  sent : List A → Segment A
  lost : List A → Segment A

pub record Spec {ℓ} (A : Type ℓ) : Type ℓ where
  pub segments : List (Segment A)
  pub open_segment : List A

module _ {ℓ} {A : Type ℓ} where
  unfoldable pub no_segments : Spec A
  no_segments = record { segments = []; open_segment = [] }

  pub data SpecStep (m : ℕ) (s : Spec A) : Spec A → List A → Type ℓ where
    arrive :
        (a : A)
        → length s.open_segment < m
        → SpecStep m s (record s { open_segment = s.open_segment ++ (a ∷ []) }) (a ∷ [])
    close :
        length s.open_segment ≡ m
        → SpecStep m s
            (record { segments = s.segments ++ (sent s.open_segment ∷ []); open_segment = [] })
            []
    drop :
        length s.open_segment < m
        → SpecStep m s
            (record { segments = s.segments ++ (lost s.open_segment ∷ []); open_segment = [] })
            []

  pub data SpecRun (m : ℕ) : Spec A → List A → Type ℓ where
    start : SpecRun m no_segments []
    later :
        {s t : Spec A} {arrived new : List A}
        → SpecRun m s arrived
        → SpecStep m s t new
        → SpecRun m t (arrived ++ new)

  -- The segments that were sent.
  abbrev pub sent_of : List (Segment A) → List (List A)
  sent_of [] = []
  sent_of (sent l ∷ segments) = l ∷ sent_of segments
  sent_of (lost l ∷ segments) = sent_of segments

  pub sent_of-append : (xs ys : List (Segment A)) → sent_of (xs ++ ys) ≡ sent_of xs ++ sent_of ys
  sent_of-append [] ys = refl
  sent_of-append (sent l ∷ xs) ys = ap (λ r. l ∷ r) (sent_of-append xs ys)
  sent_of-append (lost l ∷ xs) ys = sent_of-append xs ys

  abbrev pub packets_of : List (Segment A) → List A
  packets_of [] = []
  packets_of (sent l ∷ segments) = l ++ packets_of segments
  packets_of (lost l ∷ segments) = l ++ packets_of segments

  packets_of-snoc :
      (xs : List (Segment A)) (l : List A)
      → (packets_of (xs ++ sent l ∷ []) ≡ packets_of xs ++ l)
        × (packets_of (xs ++ lost l ∷ []) ≡ packets_of xs ++ l)
  packets_of-snoc [] l = (append-nil l, append-nil l)
  packets_of-snoc (sent k ∷ xs) l =
      (rw ((packets_of-snoc xs l).0, append_assoc), rw ((packets_of-snoc xs l).1, append_assoc))
  packets_of-snoc (lost k ∷ xs) l =
      (rw ((packets_of-snoc xs l).0, append_assoc), rw ((packets_of-snoc xs l).1, append_assoc))

  -- A sent segment is full, a lost one is not.
  abbrev pub IsCut : ℕ → Segment A → Type 0
  IsCut m (sent l) = length l ≡ m
  IsCut m (lost l) = length l < m

  -- The segments and the open one are the packets that arrived, and each segment is cut by the rule.
  pub SpecRun-packets :
      {m : ℕ} {s : Spec A} {arrived : List A}
      → SpecRun m s arrived
      → (packets_of s.segments ++ s.open_segment ≡ arrived) × All (IsCut m) s.segments
  unfolding no_segments
  SpecRun-packets SpecRun.start = (refl, tt)
  SpecRun-packets {m} (SpecRun.later {s} {arrived} r (SpecStep.arrive a h)) =
      let (same, cut) = SpecRun-packets r in
      (
        sym (append_assoc (packets_of s.segments) s.open_segment (a ∷ []))
            ∙ ap (λ l. l ++ a ∷ []) same,
        cut,
      )
  SpecRun-packets {m} (SpecRun.later {s} r (SpecStep.close h)) =
      let (same, cut) = SpecRun-packets r in
      (
        rw (append-nil, append-nil, (packets_of-snoc s.segments s.open_segment).0) same,
        All-append (IsCut m) s.segments (sent s.open_segment ∷ []) cut (h, tt),
      )
  SpecRun-packets {m} (SpecRun.later {s} r (SpecStep.drop h)) =
      let (same, cut) = SpecRun-packets r in
      (
        rw (append-nil, append-nil, (packets_of-snoc s.segments s.open_segment).1) same,
        All-append (IsCut m) s.segments (lost s.open_segment ∷ []) cut (h, tt),
      )
