-- ===== src/Buffer/Sequential.antt =====
-- Calls on the buffer, one after the other.
use huntind.Common.{ℕ, zero, suc, ◌<◌, ◌≡◌, refl, List, [], ◌∷◌, ◌++◌, length, arith, length-append}
use huntind.Buffer.{DoubleBuffer, empty, enqueue, read, size, queue_at, next_queue}

module _ {ℓ} {A : Type ℓ} where
  -- All items, those of the active queue last.
  unfoldable pub pending : DoubleBuffer A → List A
  pending b = queue_at b (next_queue b.current) ++ queue_at b b.current

  -- `current` is an index, and the queue that is not active is empty.
  pub record IsQuiet (b : DoubleBuffer A) : Type ℓ where
    pub index : b.current < 2
    pub drained : queue_at b (next_queue b.current) ≡ []

  pub IsQuiet-empty : IsQuiet (empty {A = A})
  unfolding empty
  IsQuiet-empty = record { index = omega arith; drained = refl }

  pub enqueue-IsQuiet : (b : DoubleBuffer A) (item : A) → IsQuiet b → IsQuiet (enqueue b item)
  unfolding enqueue
  enqueue-IsQuiet b item q = record { index = ground arith; drained = ground arith }

  -- An item that is added goes behind all that are there.
  pending-enqueue_at :
      (q0 q1 : List A) (c : ℕ) (item : A)
      → let b : DoubleBuffer A = record { queue0 = q0; queue1 = q1; current = c } in
        c < 2 → queue_at b (next_queue c) ≡ [] → pending (enqueue b item) ≡ pending b ++ item ∷ []
  unfolding pending enqueue
  pending-enqueue_at q0 q1 zero item lt d = rw d
  pending-enqueue_at q0 q1 (suc zero) item lt d = rw d
  pending-enqueue_at q0 q1 (suc (suc c)) item lt d = absurd (omega arith)

  pub pending-enqueue :
      (b : DoubleBuffer A) (item : A)
      → IsQuiet b
      → pending (enqueue b item) ≡ pending b ++ item ∷ []
  pending-enqueue b item q = pending-enqueue_at b.queue0 b.queue1 b.current item q.index q.drained

  pub pending-empty : pending (empty {A = A}) ≡ []
  unfolding pending empty
  pending-empty = refl

  -- If the inactive queue is empty, a read gives all items in the order in which they were added,
  -- and leaves an empty buffer whose inactive queue is empty.
  pub read-pending :
      (b : DoubleBuffer A)
      → IsQuiet b
      → ((read b).0 ≡ pending b) × (pending (read b).1 ≡ []) × IsQuiet (read b).1
  unfolding pending read
  read-pending b q =
      (ground arith, ground arith, record { index = ground arith; drained = ground arith })

  -- Whatever the two queues hold, two reads give all of it, the active queue's items first, leave
  -- nothing, and the same queue is active again.
  pub read_twice :
      (b : DoubleBuffer A)
      → b.current < 2
      → let (first, c) = read b in
        let (second, d) = read c in
        (first ++ second ≡ queue_at b b.current ++ queue_at b (next_queue b.current))
        × (pending d ≡ [])
        × (d.current ≡ b.current)
  unfolding pending read
  read_twice b q = ground arith

  pub size-pending : (b : DoubleBuffer A) → b.current < 2 → size b ≡ length (pending b)
  unfolding pending size
  size-pending b q =
      ground (arith, length-append b.queue0 b.queue1, length-append b.queue1 b.queue0)
