-- ===== src/Helpers/Timer.antt =====
-- include/hound/common/timer.hpp: a timer writes its text when it is destroyed. The clock does not go
-- back: the elapsed time is a number.
use huntind.Common.{
  ℕ, zero, suc, ◌+◌, ◌-◌, ◌/◌, ◌%◌, ◌⊎◌, ◌^◌, ◌≤◌, ◌<◌, ◌≡◌, refl, ◌∙◌, [], ◌∷◌, ◌++◌, length,
  length-append, length-replicate, replicate, leb, ltb, lt→ltb, ltb→lt, le→leb, leb→le, false, ◌==◌,
  if◌then◌else◌, Bool-cases, inl, inr, arith,
}
use native.Mathlib.Omega.{pow_step}
use huntind.Common.Outcome.{Outcome, ok, fault, length_error}
use huntind.Strings.{Text, codes, digits_of, to_string}

-- `T`, the unit.
pub data TimeUnit : Type 0 where
  seconds milliseconds microseconds nanoseconds : TimeUnit

abbrev pub unit : TimeUnit → Text
unit seconds = codes "s"
unit milliseconds = codes "ms"
unit microseconds = codes "us"
unit nanoseconds = codes "ns"

-- `elapsed` and `msg_buf` are what the references of the timer go to: `elapsed` is the timer's own
-- field with the greatest number of 64 bits, or a variable of the caller.
pub record Timer : Type 0 where
  pub elapsed : ℕ
  pub msg_buf : Text
  pub task_name : Text

abbrev pub untimed : ℕ
untimed = 2 ^ 64 - 1

-- `Timer(msg_buf)`, with the two characters of four of the name of its task.
abbrev pub new_timer : (msg_buf : Text) → Timer
new_timer msg_buf = record { elapsed = untimed; msg_buf = msg_buf; task_name = codes "计时任务" }

abbrev pub new_task_timer : (task msg_buf : Text) → Timer
new_task_timer task msg_buf = record { elapsed = untimed; msg_buf = msg_buf; task_name = task }

abbrev pub new_elapsed_timer : (elapsed : ℕ) → (task msg_buf : Text) → Timer
new_elapsed_timer elapsed task msg_buf = record {
  elapsed = elapsed;
  msg_buf = msg_buf;
  task_name = task;
}

-- `append(9 - m.size(), ' ')`: with more digits the unsigned difference wraps, and `append` throws.
unfoldable pub timer_text : TimeUnit → Text → (count : ℕ) → Outcome Text
timer_text u task_name count =
    let m = to_string count in
    if leb (length m) 9
    then ok (task_name ++ m ++ unit u ++ replicate (9 - length m) b' ')
    else fault length_error

-- What the destructor prints, and what it leaves in the variables.
unfoldable pub destroy_timer : TimeUnit → (count : ℕ) → Timer → Outcome (Text × Timer)
destroy_timer u count t = elim (timer_text u t.task_name count) [
  | fault why ↦ fault why
  | ok msg ↦
      ok (
        if t.elapsed == untimed
        then (msg, t)
        else ([], record t { elapsed = count; msg_buf = msg }))
]

digits_le :
    (fuel n k : ℕ) (acc : Text)
    → n < 10 ^ suc k
    → length (digits_of fuel n acc) ≤ suc k + length acc
digits_le zero n k acc h = omega arith
digits_le (suc fuel) n zero acc h = rw (lt→ltb n 10 h) (omega arith)
digits_le (suc fuel) n (suc k) acc h = elim (Bool-cases (ltb n 10)) [
  | inl small ↦ rw small (omega arith)
  | inr large ↦
      let smaller : n / 10 < 10 ^ suc k = omega (arith, pow_step 10 (suc k)) in
      let rest = digits_le fuel (n / 10) k ((48 + n % 10) ∷ acc) smaller in rw large (omega arith)
]

ten_power : (k : ℕ) → 1 ≤ 10 ^ k
ten_power zero = omega arith
ten_power (suc k) = omega (arith, ten_power k, pow_step 10 k)

digits_gt :
    (fuel n k : ℕ) (acc : Text)
    → n < fuel
    → 10 ^ k ≤ n
    → k + length acc < length (digits_of fuel n acc)
digits_gt zero n k acc f h = absurd (omega arith)
digits_gt (suc fuel) n zero acc f h = elim (Bool-cases (ltb n 10)) [
  | inl small ↦ rw small (omega arith)
  | inr large ↦
      let rest = digits_gt fuel (n / 10) zero ((48 + n % 10) ∷ acc) (ground arith) (ground arith) in
      rw large (omega arith)
]
digits_gt (suc fuel) n (suc k) acc f h =
    let step = pow_step 10 k in
    let below : 10 ^ k ≤ n / 10 = omega arith in
    let some_ = ten_power k in
    let rest = digits_gt fuel (n / 10) k ((48 + n % 10) ∷ acc) (omega arith) below in
    let large : ltb n 10 ≡ false = ground arith in rw large (omega arith)

-- The text has nine digits at most just if the number is below 10 ^ 9.
short_text : (n : ℕ) → leb (length (to_string n)) 9 ≡ ltb n (10 ^ 9)
unfolding to_string
short_text n = elim (Bool-cases (ltb n (10 ^ 9))) [
  | inl few ↦ rw few (le→leb _ _ (omega (arith, digits_le (suc n) n 8 [] (ltb→lt n (10 ^ 9) few))))
  | inr many ↦
      let large : 10 ^ 9 ≤ n = ground arith in
      let long = digits_gt (suc n) n 9 [] (omega arith) large in rw many (ground arith)
]

-- Below 10 ^ 9 units the destructor of a timer returns, with a text that is nine characters longer
-- than task and unit, which it prints if the timer has no variable for the time, and else stores
-- with the time; from 10 ^ 9 units on it throws std::length_error.
pub destroy_timer-branches :
    (u : TimeUnit) (count : ℕ) (t : Timer)
    → ((count < 10 ^ 9)
        × ((msg : Text) × (length msg ≡ length t.task_name + 9 + length (unit u))
            × (destroy_timer u count t
                ≡ ok (
                    if t.elapsed == untimed
                    then (msg, t)
                    else ([], record t { elapsed = count; msg_buf = msg })))))
      ⊎ ((10 ^ 9 ≤ count) × (destroy_timer u count t ≡ fault length_error))
unfolding destroy_timer timer_text
destroy_timer-branches u count t = elim (Bool-cases (ltb count (10 ^ 9))) [
  | inl few ↦
      let m = to_string count in
      let pad : Text = replicate (9 - length m) b' ' in
      let padded : length pad ≡ 9 - length m = length-replicate (9 - length m) b' ' in
      let whole = length-append (t.task_name ++ m ++ unit u) pad in
      let text = length-append (t.task_name ++ m) (unit u) in
      let tail = length-append t.task_name m in
      let short = leb→le (length m) 9 (short_text count ∙ few) in
      inl (
        ltb→lt count (10 ^ 9) few,
        (
          t.task_name ++ m ++ unit u ++ pad,
          omega arith,
          rw (destroy_timer, timer_text, short_text count, few) refl,
        ),
      )
  | inr many ↦ inr (ground arith, rw (destroy_timer, timer_text, short_text count, many) refl)
]
