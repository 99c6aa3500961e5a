-- ===== src/Encode/Concurrent/Windows.antt =====
-- The windows of both versions, compared.
use huntind.Common.{
  ℕ, zero, suc, ◌+◌, ◌-◌, ◌*◌, ◌/◌, ◌≤◌, ◌<◌, ◌≡◌, refl, sym, ap, ◌∙◌, List, [], ◌∷◌, ◌++◌,
  append_assoc, length, length-append, drop, ◌==◌, false, arith, All,
}
use huntind.Common.Batches.{
  batch_count, batch_size, batches_from, batch_count_le, join, join-batches_from,
}
use huntind.Common.Outcome.{Outcome, ok, ok-injective, ◌>>=◌, >>=-eq-ok}
use huntind.Flow.{Flow}
use huntind.Encode.Torch.{Tensors}
use huntind.Encode.Windows.{flow_windows}
use huntind.Encode.Total.{IsLong, slide_loop-total, stack-total}
use huntind.Encode.Jobs.Accounts.{All-take, All-drop}
use huntind.Encode.{flow_to_tensor, view_windows, Slides, slide_loop, build_slide_window}
use huntind.Encode.Concurrent.{slide_batches, parts_of, build_concurrently}

module _ (t : Tensors ℕ) where
  unfoldable all_windows : List Flow → Outcome (List (List ℕ))
  all_windows [] = ok []
  all_windows (f ∷ flows) = do
    viewed ← flow_windows t f 5
    rest ← all_windows flows
    ok (viewed ++ rest)

  slide_loop-windows :
      (flows : List Flow) (offset : ℕ) (s : Slides)
      → slide_loop t flows 5 offset ≡ ok s
      → all_windows flows ≡ ok s.window_list
  unfolding slide_loop all_windows
  slide_loop-windows [] offset s h = ap (λ (u : Slides). ok u.window_list) (ok-injective h)
  slide_loop-windows (f ∷ flows) offset s h =
      let (rows, r1, h1) = >>=-eq-ok (flow_to_tensor t f 5) _ h in
      let (viewed, r2, h2) = >>=-eq-ok (view_windows rows) _ h1 in
      let (rest, r3, h3) = >>=-eq-ok (slide_loop t flows 5 (offset + length viewed)) _ h2 in
      let own = slide_loop-windows flows (offset + length viewed) rest r3 in
      rw (r1, r2, own) (ap (λ (u : Slides). ok u.window_list) (ok-injective h3))

  all_windows-append :
      (xs ys : List Flow) {a b : List (List ℕ)}
      → all_windows xs ≡ ok a
      → all_windows ys ≡ ok b
      → all_windows (xs ++ ys) ≡ ok (a ++ b)
  unfolding all_windows
  all_windows-append [] ys {a} {b} h k = k ∙ ap (λ l. ok (l ++ b)) (ok-injective h)
  all_windows-append (f ∷ xs) ys {a} {b} h k =
      let (viewed, r1, h1) = >>=-eq-ok (flow_windows t f 5) _ h in
      let (rest, r2, h2) = >>=-eq-ok (all_windows xs) _ h1 in
      rw (r1, all_windows-append xs ys r2 k)
        (ap ok (sym (append_assoc viewed rest b) ∙ ap (λ l. l ++ b) (ok-injective h2)))

  slide_batches-Returns :
      (parts : List (List Flow))
      → All (All IsLong) parts
      → (s : Slides) × (slide_batches t parts 5 ≡ ok s)
        × (all_windows (join parts) ≡ ok s.window_list)
        × (length s.index_list ≡ length (join parts))
  unfolding slide_batches all_windows
  slide_batches-Returns [] a = (record { window_list = []; index_list = [] }, refl, refl, refl)
  slide_batches-Returns (part ∷ parts) a =
      let (s, looped, count) = slide_loop-total t part 0 a.0 in
      let (rest, more, own, counts) = slide_batches-Returns parts a.1 in
      (
        record {
          window_list = s.window_list ++ rest.window_list;
          index_list = s.index_list ++ rest.index_list;
        },
        rw (looped, more),
        all_windows-append part (join parts) (slide_loop-windows part 0 s looped) own,
        omega (arith, length-append s.index_list rest.index_list, length-append part (join parts)),
      )

  All-batches :
      (size : ℕ) (flows : List Flow) (n i : ℕ)
      → All IsLong flows
      → All (All IsLong) (batches_from size flows n i)
  All-batches size flows zero i a = tt
  All-batches size flows (suc n) i a = (
    All-take IsLong (batch_size (length flows) size (i * size)) (drop (i * size) flows)
        (All-drop IsLong (i * size) flows a),
    All-batches size flows n (i + 1) a,
  )

  join-parts :
      (num_cpus : ℕ) (flows : List Flow)
      → 0 < num_cpus
      → 0 < length flows
      → join (parts_of t num_cpus flows) ≡ flows
  join-parts num_cpus flows cpus some_ =
      let size = (length flows + num_cpus - 1) / num_cpus in
      let filled : length flows ≤ size * num_cpus = batch_count_le (length flows) cpus in
      let positive : 0 < size = grind arith in
      let n = batch_count (length flows) size in
      let whole : 0 + n ≡ n = omega arith in
      let start : 0 * size ≡ 0 = omega arith in
      join-batches_from size flows n 0 (rw whole (batch_count_le (length flows) positive))
      ∙ ap (λ k. drop k flows) start

  -- On one cpu or more and for one flow or more, each of five packets or more whose blobs have 148
  -- bytes, BuildSlideWindow and its concurrent version both return, with the same windows in the
  -- same order and as many indices.
  pub build_concurrently-windows :
      (num_cpus : ℕ) (flows : List Flow)
      → 0 < num_cpus
      → 0 < length flows
      → All IsLong flows
      → (s r : Slides) × (build_slide_window t flows 5 ≡ ok s)
        × (build_concurrently t num_cpus flows 5 ≡ ok r)
        × (r.window_list ≡ s.window_list)
        × (length r.index_list ≡ length s.index_list)
  unfolding build_slide_window build_concurrently
  build_concurrently-windows num_cpus flows cpus some_ a =
      let (s, looped, count) = slide_loop-total t flows 0 a in
      let parts_are = join-parts num_cpus flows cpus some_ in
      let size = (length flows + num_cpus - 1) / num_cpus in
      let (r, made, own, counts) =
        slide_batches-Returns (parts_of t num_cpus flows)
          (All-batches size flows (batch_count (length flows) size) 0 a) in
      let same_count = counts ∙ ap length parts_are in
      let some_cpus : (num_cpus == 0) ≡ false = ground arith in
      (
        s,
        r,
        rw (looped, stack-total t s (omega arith)),
        rw (some_cpus, made, stack-total t r (omega arith)),
        ok-injective (sym own ∙ ap all_windows parts_are ∙ slide_loop-windows flows 0 s looped),
        same_count ∙ sym count,
      )
