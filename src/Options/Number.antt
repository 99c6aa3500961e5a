-- ===== src/Options/Number.antt =====
-- `std::stoi` on a text in base 10.
use huntind.Common.{
  ℕ, zero, suc, ◌+◌, ◌-◌, ◌*◌, ◌/◌, ◌%◌, ◌^◌, ◌≤◌, ◌<◌, ◌≡◌, Bool, true, false, ◌&&◌, ◌||◌, [], ◌∷◌,
  Option, none, some, ltb, leb, ◌==◌, if◌then◌else◌, Bool-cases, inl, inr, ℤ, pos, negsuc, arith,
  lt→ltb,
}
use huntind.Common.Outcome.{Outcome, ok, fault, invalid_argument, out_of_range}
use huntind.Strings.{Text, digits_of, to_string}

abbrev pub is_digit : ℕ → Bool
is_digit c = leb 48 c && leb c 57

-- `isspace`
abbrev pub is_space : ℕ → Bool
is_space c = c == 32 || leb 9 c && leb c 13

abbrev pub skip_spaces : Text → Text
skip_spaces [] = []
skip_spaces (c ∷ text) = let rest = skip_spaces text in if is_space c then rest else c ∷ text

-- The number that the digits in front make, behind `value`.
abbrev pub read_digits : (value : ℕ) → Text → ℕ
read_digits value [] = value
read_digits value (c ∷ text) =
    let more = read_digits (value * 10 + (c - 48)) text in if is_digit c then more else value

abbrev pub read_number : Text → Option ℕ
read_number [] = none
read_number (c ∷ text) = if is_digit c then some (read_digits 0 (c ∷ text)) else none

-- The value has to be an `int`.
abbrev pub in_range : (negative : Bool) → Option ℕ → Outcome ℤ
in_range negative none = fault invalid_argument
in_range true (some zero) = ok (pos 0)
in_range true (some (suc n)) = if ltb n (2 ^ 31) then ok (negsuc n) else fault out_of_range
in_range false (some n) = if ltb n (2 ^ 31) then ok (pos n) else fault out_of_range

abbrev pub read_signed : Text → Outcome ℤ
read_signed [] = fault invalid_argument
read_signed (c ∷ text) =
    if c == b'-'
    then in_range true (read_number text)
    else if c == b'+'
    then in_range false (read_number text)
    else in_range false (read_number (c ∷ text))

unfoldable pub stoi : Text → Outcome ℤ
stoi text = read_signed (skip_spaces text)

read_digits-digits_of :
    (fuel n : ℕ) (acc : Text) → n < fuel → read_digits 0 (digits_of fuel n acc) ≡ read_digits n acc
read_digits-digits_of zero n acc h = absurd (omega arith)
read_digits-digits_of (suc fuel) n acc h = elim (Bool-cases (ltb n 10)) [
  | inl small ↦
      let digit : is_digit (48 + n % 10) ≡ true = ground arith in
      let value : 0 * 10 + (48 + n % 10 - 48) ≡ n = ground arith in rw (small, digit, value)
  | inr more ↦
      let digit : is_digit (48 + n % 10) ≡ true = ground arith in
      let value : n / 10 * 10 + (48 + n % 10 - 48) ≡ n = omega arith in
      rw more (
        rw (digit, value) at
          (read_digits-digits_of fuel (n / 10) ((48 + n % 10) ∷ acc) (ground arith)))
]

-- The text begins with a digit.
digits_of-cons :
    (fuel n : ℕ) (acc : Text)
    → n < fuel
    → (c : ℕ) × (rest : Text) × (digits_of fuel n acc ≡ c ∷ rest) × (48 ≤ c) × (c ≤ 57)
digits_of-cons zero n acc h = absurd (omega arith)
digits_of-cons (suc fuel) n acc h = elim (Bool-cases (ltb n 10)) [
  | inl small ↦ (48 + n % 10, acc, rw small, omega arith, omega arith)
  | inr more ↦ rw more (digits_of-cons fuel (n / 10) ((48 + n % 10) ∷ acc) (ground arith))
]

stoi-digit :
    (c : ℕ) (rest : Text) (n : ℕ)
    → 48 ≤ c
    → c ≤ 57
    → read_digits 0 (c ∷ rest) ≡ n
    → n < 2 ^ 31
    → stoi (c ∷ rest) ≡ ok (pos n)
unfolding stoi
stoi-digit c rest n low high value small =
    let digit : is_digit c ≡ true = ground arith in
    let no_space : is_space c ≡ false = ground arith in
    let no_minus : (c == b'-') ≡ false = ground arith in
    let no_plus : (c == b'+') ≡ false = ground arith in
    rw (no_space, no_minus, no_plus, digit, rw digit at value, lt→ltb n (2 ^ 31) small)

-- Reading the decimal text of a number below 2 ^ 31 gives the number.
pub stoi-to_string : (n : ℕ) → n < 2 ^ 31 → stoi (to_string n) ≡ ok (pos n)
unfolding to_string
stoi-to_string n small =
    let (c, rest, is_cons, low, high) = digits_of-cons (suc n) n [] (omega arith) in
    rw is_cons (
      stoi-digit c rest n low high
        (rw is_cons at (read_digits-digits_of (suc n) n [] (omega arith))) small)

abbrev pub IsInt : ℤ → Type 0
IsInt (pos n) = n < 2 ^ 31
IsInt (negsuc n) = n < 2 ^ 31

in_range-IsInt : (negative : Bool) (o : Option ℕ) (v : ℤ) → in_range negative o ≡ ok v → IsInt v
in_range-IsInt negative none v h = cc
in_range-IsInt true (some zero) (pos n) h = ground arith
in_range-IsInt true (some zero) (negsuc n) h = cc
in_range-IsInt true (some (suc n)) (pos m) h = ground arith
in_range-IsInt true (some (suc n)) (negsuc m) h = ground arith
in_range-IsInt false (some n) (pos m) h = ground arith
in_range-IsInt false (some n) (negsuc m) h = ground arith

read_signed-IsInt : (text : Text) (v : ℤ) → read_signed text ≡ ok v → IsInt v
read_signed-IsInt [] v h = cc
read_signed-IsInt (c ∷ text) v h = elim (Bool-cases (c == b'-')) [
  | inl minus ↦ in_range-IsInt true (read_number text) v (rw minus at h)
  | inr e ↦ elim (Bool-cases (c == b'+')) [
    | inl plus ↦ in_range-IsInt false (read_number text) v (rw (e, plus) at h)
    | inr f ↦ in_range-IsInt false (read_number (c ∷ text)) v (rw (e, f) at h)
  ]
]

pub stoi-IsInt : (text : Text) (v : ℤ) → stoi text ≡ ok v → IsInt v
unfolding stoi
stoi-IsInt text v h = read_signed-IsInt (skip_spaces text) v h
