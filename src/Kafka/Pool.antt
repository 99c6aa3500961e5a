-- ===== src/Kafka/Pool.antt =====
-- include/hound/sink/kafka/producer_pool.hpp and producer.hpp. `RdKafka::Producer::create` is not part
-- of the repository: `create n` is its answer to its call number n, a producer or null. Each
-- operation holds the mutex of the pool, and is one step.
pub mod Leases
use huntind.Common.{ℕ, zero, suc, ◌+◌, List, [], ◌∷◌, ◌++◌, Option, none, some, ltb, if◌then◌else◌}
use huntind.Common.Outcome.{Outcome, ok, fault, null_pointer, runtime_error, length_error, ◌>>=◌}

-- The producers, the last one added last, and the number of calls of `create` so far.
pub record ProducerPool (Producer : Type 0) : Type 0 where
  pub producers : List Producer
  pub created : ℕ

module _ {Producer : Type 0} where
  -- `back()` and `pop_back()`: the last producer, and those before it.
  abbrev pub split_back : List Producer → Option (Producer × List Producer)
  split_back [] = none
  split_back (p ∷ ps) = elim (split_back ps) [
    | none ↦ some (p, [])
    | some (l, rest) ↦ some (l, p ∷ rest)
  ]

  -- `collect`
  unfoldable pub collect : ProducerPool Producer → Producer → ProducerPool Producer
  collect pool producer = record pool { producers = pool.producers ++ (producer ∷ []) }

  -- The move assignment from another pool: the producers of `other`, which is left without any, and
  -- those that were in the pool, which are destroyed.
  unfoldable pub move_pool :
      (pool other : ProducerPool Producer)
      → ProducerPool Producer × ProducerPool Producer × List Producer
  move_pool pool other = (
    record { producers = other.producers; created = other.created },
    record other { producers = [] },
    pool.producers,
  )

module _ {Producer : Type 0} (create : ℕ → Option Producer) where
  -- The polling thread of a managed producer calls its producer at once.
  abbrev pub managed_producer : Option Producer → Outcome Producer
  managed_producer none = fault null_pointer
  managed_producer (some producer) = ok producer

  -- `generate` does not test the answer.
  unfoldable pub generate : ProducerPool Producer → Outcome (Producer × ProducerPool Producer)
  generate pool = do
    producer ← managed_producer (create pool.created)
    ok (producer, record pool { created = pool.created + 1 })

  unfoldable pub acquire : ProducerPool Producer → Outcome (Producer × ProducerPool Producer)
  acquire pool = elim (split_back pool.producers) [
    | none ↦ generate pool
    | some (producer, rest) ↦ ok (producer, record pool { producers = rest })
  ]

  -- The loop of the constructor, `n` rounds before its end; the constructor tests the answer.
  unfoldable pub fill_pool : (n : ℕ) → ProducerPool Producer → Outcome (ProducerPool Producer)
  fill_pool zero pool = ok pool
  fill_pool (suc n) pool = elim (create pool.created) [
    | none ↦ fault runtime_error
    | some producer ↦
        fill_pool n
          (record { producers = pool.producers ++ (producer ∷ []); created = pool.created + 1 })
  ]

  -- `producers_.reserve(poolSize)` throws above the vector's `max_size()`.
  unfoldable pub new_pool : (max_size pool_size : ℕ) → Outcome (ProducerPool Producer)
  new_pool max_size pool_size =
      if ltb max_size pool_size
      then fault length_error
      else fill_pool pool_size (record { producers = []; created = 0 })
