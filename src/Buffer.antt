-- ===== src/Buffer.antt =====
-- include/hound/double_buffered_queue.hpp: two containers, of which producers fill the active one
-- while a reader takes the other away. A container is the list of its items, oldest first.
pub mod Sequential
pub mod Interleaving
mod Examples
use huntind.Common.{ℕ, ◌+◌, ◌%◌, List, [], ◌∷◌, ◌++◌, length, ◌==◌, if◌then◌else◌}

pub record DoubleBuffer {ℓ} (A : Type ℓ) : Type ℓ where
  pub queue0 : List A
  pub queue1 : List A
  pub current : ℕ

-- `(currentQueue + 1) & 0x1`
abbrev pub next_queue : ℕ → ℕ
next_queue current = (current + 1) % 2

module _ {ℓ} {A : Type ℓ} where
  unfoldable pub empty : DoubleBuffer A
  empty = record { queue0 = []; queue1 = []; current = 0 }

  -- `queues[i]`, for the indices 0 and 1 that `current` takes.
  abbrev pub queue_at : DoubleBuffer A → ℕ → List A
  queue_at b i = if i == 0 then b.queue0 else b.queue1

  abbrev pub set_queue : DoubleBuffer A → ℕ → List A → DoubleBuffer A
  set_queue b i items = if i == 0 then record b { queue0 = items } else record b { queue1 = items }

  unfoldable pub enqueue : DoubleBuffer A → A → DoubleBuffer A
  enqueue b item = set_queue b b.current (queue_at b b.current ++ (item ∷ []))

  -- The items of the queue that was active, which is left empty, and the buffer with the other one
  -- active.
  unfoldable pub read : DoubleBuffer A → List A × DoubleBuffer A
  read b = let i = b.current in (queue_at b i, set_queue (record b { current = next_queue i }) i [])

  unfoldable pub size : DoubleBuffer A → ℕ
  size b = length b.queue0 + length b.queue1
