-- ===== src/Kafka/Pool/Leases.antt =====
-- Producers that are taken from the pool and given back, in any order.
use mathlib.Core.List.{Perm, perm_middle}
use mathlib.Core.List.Perm
use huntind.Common.{
  ltb, Bool-cases, ℕ, zero, suc, ◌+◌, ◌≡◌, subst, List, [], ◌∷◌, ◌++◌, append-nil, append_assoc,
  Option, none, some, Option-cases, ◌⊎◌, inl, inr, arith,
}
use huntind.Common.Outcome.{ok, ok-injective}
use huntind.Kafka.Pool.{ProducerPool, split_back, collect, generate, acquire, fill_pool, new_pool}

split_back_lem :
    {Producer : Type 0} (ps : List Producer) {last : Producer} {rest : List Producer}
    → split_back ps ≡ some (last, rest)
    → ps ≡ rest ++ last ∷ []
split_back_lem [] h = cc
split_back_lem (p ∷ ps) {last} {rest} h = elim (Option-cases (split_back ps)) [
  | inl e ↦ let h1 = rw e at h in ground arith
  | inr ((l, r), e) ↦ let h1 = rw e at h in let ih = split_back_lem ps e in ground arith
]

module _ {Producer : Type 0} (create : ℕ → Option Producer) where
  -- The producers that the first `n` calls of `create` gave.
  unfoldable pub made : ℕ → List Producer
  made zero = []
  made (suc n) = elim (create n) [ none ↦ made n | some p ↦ p ∷ made n ]

  -- The pool and the producers that threads have taken.
  pub record System : Type 0 where
    pub pool : ProducerPool Producer
    pub lent : List Producer

  pub data Step (s : System) : System → Type 0 where
    take_one :
        (p : Producer) (next : ProducerPool Producer)
        → acquire create s.pool ≡ ok (p, next)
        → Step s (record { pool = next; lent = p ∷ s.lent })
    give_back :
        (before after : List Producer) (p : Producer)
        → s.lent ≡ before ++ p ∷ after
        → Step s (record { pool = collect s.pool p; lent = before ++ after })

  pub data Run (pool_size : ℕ) : System → Type 0 where
    start :
        (max_size : ℕ) (pool : ProducerPool Producer)
        → new_pool create max_size pool_size ≡ ok pool
        → Run pool_size (record { pool = pool; lent = [] })
    later : {s t : System} → Run pool_size s → Step s t → Run pool_size t

  made_next : (n : ℕ) (p : Producer) → create n ≡ some p → made (n + 1) ≡ p ∷ made n
  unfolding made
  made_next n p h = let e : n + 1 ≡ suc n = omega arith in rw (e, made, h)

  perm_snoc : (ps : List Producer) (p : Producer) → Perm (ps ++ p ∷ []) (p ∷ ps)
  perm_snoc ps p = rw append-nil at (perm_middle {a = p} ps [])

  fill_pool_lem :
      (n : ℕ) (pool next : ProducerPool Producer)
      → fill_pool create n pool ≡ ok next
      → Perm pool.producers (made pool.created)
      → Perm next.producers (made next.created)
  unfolding fill_pool
  fill_pool_lem zero pool next h a =
      subst (λ (q : ProducerPool Producer). Perm q.producers (made q.created)) (ok-injective h) a
  fill_pool_lem (suc n) pool next h a = elim (Option-cases (create pool.created)) [
    | inl e ↦ let h1 = rw (fill_pool, e) at h in cc
    | inr (p, e) ↦
        fill_pool_lem n _ next (rw (fill_pool, e) at h) (
          rw (made_next pool.created p e) (Perm.trans (perm_snoc pool.producers p) (Perm.cons p a)))
  ]

  acquire-cases :
      (pool next : ProducerPool Producer) (p : Producer)
      → acquire create pool ≡ ok (p, next)
      → ((pool.producers ≡ next.producers ++ p ∷ []) × (next.created ≡ pool.created))
        ⊎ ((create pool.created ≡ some p)
            × (next.producers ≡ pool.producers)
            × (next.created ≡ pool.created + 1))
  unfolding acquire generate
  acquire-cases pool next p h = elim (Option-cases (split_back pool.producers)) [
    | inl e ↦
        let h1 = rw (acquire, generate, e) at h in
        inr (elim (Option-cases (create pool.created)) [
          | inl none_is ↦ let h2 = rw none_is at h1 in cc
          | inr (q, some_is) ↦ let h2 = rw some_is at h1 in ground arith
        ])
    | inr ((l, r), e) ↦
        let h1 = rw (acquire, e) at h in
        let back_is = split_back_lem pool.producers e in inl (ground arith)
  ]

  acquire_lem :
      (pool next : ProducerPool Producer) (p : Producer) (lent : List Producer)
      → acquire create pool ≡ ok (p, next)
      → Perm (lent ++ pool.producers) (made pool.created)
      → Perm (p ∷ (lent ++ next.producers)) (made next.created)
  acquire_lem pool next p lent h a = elim (acquire-cases pool next p h) [
    | inl (back_is, same) ↦
        let b = rw (back_is, ← append_assoc) at a in
        rw same (Perm.trans (Perm.symm (perm_snoc (lent ++ next.producers) p)) b)
    | inr (given, same, more) ↦ rw (more, same, made_next pool.created p given) (Perm.cons p a)
  ]

  Step-made :
      {s t : System}
      → Step s t
      → Perm (s.lent ++ s.pool.producers) (made s.pool.created)
      → Perm (t.lent ++ t.pool.producers) (made t.pool.created)
  Step-made {s} (take_one p next e) a = acquire_lem s.pool next p s.lent e a
  Step-made {s} (give_back before after p e) a =
      let b = rw (e, append_assoc) at a in
      unfold collect in
      Perm.trans (rw append_assoc at (perm_snoc ((before ++ after) ++ s.pool.producers) p)) (
        Perm.trans (rw append_assoc (Perm.symm (perm_middle before (after ++ s.pool.producers)))) b)

  -- In every state that a pool of any initial size reaches by taking producers and giving them
  -- back, the producers lent and those in the pool are together a permutation of those that
  -- `create` gave: none is lost and none is lent twice.
  pub Run-made :
      {pool_size : ℕ} {s : System}
      → Run pool_size s
      → Perm (s.lent ++ s.pool.producers) (made s.pool.created)
  unfolding new_pool made
  Run-made {pool_size} (start max_size pool e) = elim (Bool-cases (ltb max_size pool_size)) [
    | inl long ↦ let thrown = rw (new_pool, long) at e in cc
    | inr fits ↦ fill_pool_lem pool_size _ pool (rw (new_pool, fits) at e) (Perm.refl [])
  ]
  Run-made (later r st) = Step-made st (Run-made r)
