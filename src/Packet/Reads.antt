-- ===== src/Packet/Reads.antt =====
-- Reads through the pointers of parsed_packet.cpp, with the bounds that the source relies on.
use huntind.Common.{
  ap₂, refl, ℕ, zero, suc, ◌+◌, ◌*◌, ◌≤◌, ◌<◌, ◌≡◌, ◌≢◌, List, [], ◌∷◌, length, length-take,
  length-drop, take, drop, leb, if◌then◌else◌, arith, get_elem?, Option, none, some, All,
}
use huntind.Common.Outcome.{Fault, Outcome, ok, fault, out_of_bounds}

abbrev pub or_fault {ℓ} : {A : Type ℓ} → Option A → Outcome A
or_fault none = fault out_of_bounds
or_fault (some a) = ok a

unfoldable pub load : List ℕ → ℕ → Outcome ℕ
load bytes i = or_fault (get_elem? bytes i)

unfoldable pub load_bytes : List ℕ → ℕ → ℕ → Outcome (List ℕ)
load_bytes bytes off n =
    if leb (off + n) (length bytes) then ok (take n (drop off bytes)) else fault out_of_bounds

unfoldable pub big_endian : List ℕ → ℕ
big_endian [] = 0
big_endian (b ∷ []) = b
big_endian (b ∷ c ∷ rest) = b * 256 + c

unfoldable pub little_endian : List ℕ → ℕ
little_endian [] = 0
little_endian (b ∷ rest) = b + 256 * little_endian rest

pub length-load_bytes :
    (bytes : List ℕ) (off n : ℕ) {out : List ℕ} → load_bytes bytes off n ≡ ok out → length out ≡ n
unfolding load_bytes
length-load_bytes bytes off n h =
    ground (arith, length-take n (drop off bytes), length-drop off bytes)

-- A range inside the frame is read without a fault.
pub load_bytes-total :
    (bytes : List ℕ) (off n : ℕ)
    → off + n ≤ length bytes
    → load_bytes bytes off n ≡ ok (take n (drop off bytes))
unfolding load_bytes
load_bytes-total bytes off n h = ground arith

pub load_bytes-fault :
    (bytes : List ℕ) (off n : ℕ)
    → length bytes < off + n
    → load_bytes bytes off n ≡ fault out_of_bounds
unfolding load_bytes
load_bytes-fault bytes off n h = ground arith

pub load-safe : (bytes : List ℕ) (i : ℕ) (e : Fault) → i < length bytes → load bytes i ≢ fault e
unfolding load
load-safe [] i e h q = absurd (omega arith)
load-safe (x ∷ xs) zero e h q = cc
load-safe (x ∷ xs) (suc i) e h q = load-safe xs i e (omega arith) q

abbrev pub IsByte : ℕ → Type 0
IsByte b = b < 256

pub load-IsByte :
    (bytes : List ℕ) (i : ℕ) {b : ℕ} → All IsByte bytes → load bytes i ≡ ok b → b < 256
unfolding load
load-IsByte [] i a h = ground arith
load-IsByte (x ∷ xs) zero a h = ground arith
load-IsByte (x ∷ xs) (suc i) a h = load-IsByte xs i a.1 h

take-IsByte : (n : ℕ) (xs : List ℕ) → All IsByte xs → All IsByte (take n xs)
take-IsByte zero xs a = tt
take-IsByte (suc n) [] a = tt
take-IsByte (suc n) (x ∷ xs) a = (a.0, take-IsByte n xs a.1)

drop-IsByte : (n : ℕ) (xs : List ℕ) → All IsByte xs → All IsByte (drop n xs)
drop-IsByte zero xs a = a
drop-IsByte (suc n) [] a = tt
drop-IsByte (suc n) (x ∷ xs) a = drop-IsByte n xs a.1

pub load_bytes-IsByte :
    (bytes : List ℕ) (off n : ℕ) {out : List ℕ}
    → All IsByte bytes
    → load_bytes bytes off n ≡ ok out
    → All IsByte out
unfolding load_bytes
load_bytes-IsByte bytes off n a h =
    ground (arith, take-IsByte n (drop off bytes) (drop-IsByte off bytes a))

-- Of as many bytes, the little-endian number tells all of them.
pub little_endian-injective :
    (xs ys : List ℕ)
    → All IsByte xs
    → All IsByte ys
    → length xs ≡ length ys
    → little_endian xs ≡ little_endian ys
    → xs ≡ ys
unfolding little_endian
little_endian-injective [] [] a b n h = refl
little_endian-injective [] (y ∷ ys) a b n h = absurd (omega arith)
little_endian-injective (x ∷ xs) [] a b n h = absurd (omega arith)
little_endian-injective (x ∷ xs) (y ∷ ys) a b n h =
    ap₂ ◌∷◌ (omega arith) (little_endian-injective xs ys a.1 b.1 (omega arith) (omega arith))
