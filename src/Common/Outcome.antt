-- ===== src/Common/Outcome.antt =====
-- What a C++ call may do besides returning: a fault is undefined behaviour or an exception that the
-- source does not catch on the spot.
use mathlib.Core.Path.{◌≡◌, refl}
use mathlib.Core.Bool.{Bool, true, false}
use huntind.Common.Tests.{if◌then◌else◌}

pub data Fault : Type 0 where
  out_of_bounds : Fault  -- a read outside the object that a pointer or index goes to
  length_error : Fault  -- std::length_error, from a size that a negative number was turned into
  invalid_argument : Fault  -- std::invalid_argument
  out_of_range : Fault  -- std::out_of_range
  division_by_zero : Fault
  arithmetic_overflow : Fault  -- an `int` that leaves its range
  null_pointer : Fault  -- a call through a null pointer
  assertion_failed : Fault  -- a failing `assert` of a debug build
  runtime_error : Fault  -- std::runtime_error, or what a third-party call throws

pub data Outcome {ℓ} (A : Type ℓ) : Type ℓ where
  ok : A → Outcome A
  fault : Fault → Outcome A

-- Faults that are C++ exceptions, which `catch (...)` stops.
abbrev pub is_exception : Fault → Bool
is_exception length_error = true
is_exception invalid_argument = true
is_exception out_of_range = true
is_exception runtime_error = true
is_exception _ = false

-- `try { call } catch (...) { handler }`
abbrev pub try_catch {ℓ} : {A : Type ℓ} → Outcome A → Outcome A → Outcome A
try_catch (ok a) handler = ok a
try_catch (fault why) handler = if is_exception why then handler else fault why

infixl 5 ◌>>=◌
-- What follows a call runs on its result; a fault ends both.
abbrev pub ◌>>=◌ {ℓ κ} :
    {Result : Type ℓ} {Next : Type κ} → Outcome Result → (Result → Outcome Next) → Outcome Next
fault why >>= next = fault why
ok result >>= next = next result

pub ok-injective {ℓ} : {A : Type ℓ} {a b : A} → ok a ≡ ok b → a ≡ b
ok-injective h = cc

-- If both return, the first one returned something.
pub >>=-eq-ok {ℓ κ} :
    {Result : Type ℓ} {Next : Type κ} {end : Next} (call : Outcome Result)
    (next : Result → Outcome Next) (returned : (call >>= next) ≡ ok end)
    → (result : Result) × (call ≡ ok result) × (next result ≡ ok end)
>>=-eq-ok (fault why) next returned = cc
>>=-eq-ok (ok result) next returned = (result, refl, returned)

-- The call returns, and its result is as said.
abbrev pub Returns {ℓ κ} : {A : Type ℓ} → Outcome A → (A → Type κ) → Type κ
Returns (ok a) P = P a
Returns (fault e) P = ⊥ × Unit

pub Returns-bind {ℓ κ ν} :
    {A : Type ℓ} {B : Type κ} (m : Outcome A) (f : A → Outcome B) (P : A → Type ν) (Q : B → Type ν)
    → Returns m P
    → ((a : A) → m ≡ ok a → P a → Returns (f a) Q)
    → Returns (m >>= f) Q
Returns-bind (ok a) f P Q h k = k a refl h
Returns-bind (fault e) f P Q h k = absurd h.0

pub Returns-map {ℓ κ ν} :
    {A : Type ℓ} (m : Outcome A) (P : A → Type κ) (Q : A → Type ν)
    → Returns m P
    → ((a : A) → P a → Q a)
    → Returns m Q
Returns-map (ok a) P Q h k = k a h
Returns-map (fault e) P Q h k = absurd h.0

-- What a call returned is as said.
pub Returns-ok {ℓ κ} :
    {A : Type ℓ} {m : Outcome A} {a : A} (P : A → Type κ) → m ≡ ok a → Returns m P → P a
Returns-ok {m} P e h = rw e at h
