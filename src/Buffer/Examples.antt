-- ===== src/Buffer/Examples.antt =====
-- A buffer and a run of two threads, and the theorems on them.
use mathlib.Core.List.{Perm}
use huntind.Common.{ℕ, Bool, true, false, none, some, ◌≡◌, refl, [], ◌∷◌, ◌++◌, arith}
use huntind.Buffer.{DoubleBuffer, empty, enqueue, read, queue_at, next_queue}
use huntind.Buffer.Sequential.{
  pending, IsQuiet, IsQuiet-empty, enqueue-IsQuiet, read-pending, read_twice,
}
use huntind.Buffer.Interleaving.{System, Step, Run, held, Run-held}

abbrev two_items : DoubleBuffer ℕ
two_items = enqueue (enqueue empty 7) 8

two_items-IsQuiet : IsQuiet two_items
two_items-IsQuiet = enqueue-IsQuiet _ 8 (enqueue-IsQuiet empty 7 IsQuiet-empty)

-- Items in both queues.
abbrev both : DoubleBuffer ℕ
both = record { queue0 = 1 ∷ []; queue1 = 2 ∷ 3 ∷ []; current = 1 }

read-pending_example :
    ((read two_items).0 ≡ pending two_items)
    × (pending (read two_items).1 ≡ [])
    × IsQuiet (read two_items).1
read-pending_example = read-pending two_items two_items-IsQuiet

read_twice_example :
    ((read both).0 ++ (read (read both).1).0
      ≡ queue_at both both.current ++ queue_at both (next_queue both.current))
    × (pending (read (read both).1).1 ≡ [])
    × ((read (read both).1).1.current ≡ both.current)
read_twice_example = read_twice both (omega arith)

-- A producer loads the index 0. A reader switches to queue 1 and swaps queue 0 out, still empty;
-- then the producer adds to queue 0, which is no longer active.
abbrev late_state : System ℕ
late_state = record {
  buffer = record { queue0 = 7 ∷ []; queue1 = []; current = 1 };
  adding = [];
  writing = [];
  loaded = [];
  stored = [];
  swapping = none;
  handed_out = [];
  raced = false;
}

late : Run false late_state (7 ∷ [])
unfolding empty
late =
    let produced = Run.later Run.start (Step.produce 7) in
    let loaded = Run.later produced Step.load in
    let stored = Run.later loaded (Step.store [] [] 0 refl) in
    let begun = Run.later stored (Step.begin_swap [] [] 0 refl refl) in
    let swapped = Run.later begun (Step.end_swap 0 refl) in
    let adding = Run.later swapped (Step.begin_add [] [] 0 7 refl) in
    Run.later adding (Step.end_add [] [] 0 7 refl)

Run-held_example : Perm (held late_state) (7 ∷ [])
Run-held_example = Run-held late refl

-- The producer adds while the reader swaps.
abbrev raced_state : System ℕ
raced_state = record late_state {
  buffer = record { queue0 = []; queue1 = []; current = 1 };
  writing = (0, 7) ∷ [];
  swapping = some 0;
  raced = true;
}

raced : (concurrent : Bool) → Run concurrent raced_state (7 ∷ [])
unfolding empty
raced concurrent =
    let produced = Run.later Run.start (Step.produce 7) in
    let loaded = Run.later produced Step.load in
    let stored = Run.later loaded (Step.store [] [] 0 refl) in
    let begun = Run.later stored (Step.begin_swap [] [] 0 refl refl) in
    Run.later begun (Step.begin_add [] [] 0 7 refl)
