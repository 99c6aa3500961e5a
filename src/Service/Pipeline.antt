-- ===== src/Service/Pipeline.antt =====
-- Parsing the packets of several batches one after the other.
use mathlib.Core.List.{Perm, Permᴰ}
use mathlib.Core.Logic.{∥∥₁_elim}
use huntind.Common.{◌≡◌, ap, ◌∙◌, subst, List, [], ◌∷◌, ◌++◌, Bool-cases, inl, inr, All}
use huntind.Common.Outcome.{ok, ok-injective, >>=-eq-ok}
use huntind.Common.Batches.{join}
use huntind.Settings.{CaptureOption}
use huntind.Packet.{RawPacket, ParsedPacket, parse_packet, present}
use huntind.Sink.{parse_raw_packets}

pub parse_raw_packets-append :
    (opt : CaptureOption) (xs ys : List RawPacket) {ps qs : List ParsedPacket}
    → parse_raw_packets opt xs ≡ ok ps
    → parse_raw_packets opt ys ≡ ok qs
    → parse_raw_packets opt (xs ++ ys) ≡ ok (ps ++ qs)
unfolding parse_raw_packets
parse_raw_packets-append opt [] ys {ps} {qs} h k = k ∙ ap (λ l. ok (l ++ qs)) (ok-injective h)
parse_raw_packets-append opt (x ∷ xs) ys {ps} {qs} h k =
    let (p, parsed, more) = >>=-eq-ok (parse_packet opt x) _ h in
    let (rest, rest_parsed, end) = >>=-eq-ok (parse_raw_packets opt xs) _ more in
    let both = parse_raw_packets-append opt xs ys rest_parsed k in
    elim (Bool-cases (present p)) [
      | inl here ↦ rw (parsed, both, here) (ap (λ l. ok (l ++ qs)) (ok-injective (rw here at end)))
      | inr gone ↦ rw (parsed, both, gone) (ap (λ l. ok (l ++ qs)) (ok-injective (rw gone at end)))
    ]

module _ {A : Type 0} (P : A → Type 0) where
  pub All-split : (xs ys : List A) → All P (xs ++ ys) → All P xs × All P ys
  All-split [] ys a = (tt, a)
  All-split (x ∷ xs) ys a = let (first, rest) = All-split xs ys a.1 in ((a.0, first), rest)

  All-join : (xss : List (List A)) → All P (join xss) → All (All P) xss
  All-join [] a = tt
  All-join (xs ∷ xss) a =
      let (first, rest) = All-split xs (join xss) a in (first, All-join xss rest)

  pub All-IsProp : ((a : A) → IsProp (P a)) → (xs : List A) → IsProp (All P xs)
  All-IsProp h [] = hlevel
  All-IsProp h (x ∷ xs) = hlevel (h x, All-IsProp h xs)

  All-Permᴰ : {xs ys : List A} → Permᴰ xs ys → All P xs → All P ys
  All-Permᴰ Permᴰ.nil a = tt
  All-Permᴰ (Permᴰ.cons e p) a = (subst P e a.0, All-Permᴰ p a.1)
  All-Permᴰ (Permᴰ.swap e f) a = (subst P f a.1.0, (subst P e a.0, a.1.1))
  All-Permᴰ (Permᴰ.trans p q) a = All-Permᴰ q (All-Permᴰ p a)

  pub All-Perm : {xs ys : List A} → ((a : A) → IsProp (P a)) → Perm xs ys → All P xs → All P ys
  All-Perm {ys} h p a = ∥∥₁_elim p (All-IsProp h ys) (λ d. All-Permᴰ d a)
