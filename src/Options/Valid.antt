-- ===== src/Options/Valid.antt =====
-- What the parsed options satisfy.
use huntind.Common.{
  ℕ, zero, suc, ◌-◌, ◌*◌, ◌/◌, ◌%◌, ◌^◌, ◌<◌, ◌≡◌, refl, sym, ◌∙◌, Bool, true, false, not, List, [],
  ◌∷◌, ◌==◌, leb, length, Bool-cases, inl, inr, ℤ, pos, negsuc, arith,
}
use huntind.Common.Outcome.{Outcome, ok, fault}
use huntind.Strings.{Text}
use huntind.Settings.{CaptureOption}
use huntind.Options.Number.{stoi, IsInt, stoi-IsInt}
use huntind.Options.{
  Case, device_case, duration_case, caplen_case, filter_case, cuda_case, fill_case, num_case,
  wait1_case, wait2_case, payload_case, min_case, max_case, timeout_case, timestamp_case,
  verbose_case, sep_case, brokers_case, pool_case, partition_case, topic_case, model_case,
  index_case, workers_case, stride_case, unknown_case, help_case, default_case, case_labels,
  find_case, ParseResult, parsed, exited, thrown, to_unsigned, and_bits, is_bad_stride, with_int,
  set_workers, set_stride, set_separator, parse_option, parse_loop, parse_options,
}

abbrev pub pow2 : ℕ → ℕ
pow2 zero = 1
pow2 (suc k) = 2 * pow2 k

and_bits_same : (w m : ℕ) → m < pow2 w → and_bits w m m ≡ m
unfolding and_bits
and_bits_same zero m h = omega arith
and_bits_same (suc w) m h = let ih = and_bits_same w (m / 2) (omega arith) in grind (arith, ih)

-- A number above 0 that shares no bit with the one before it is a power of two.
and_bits-pow2 : (w n : ℕ) → suc n < pow2 w → and_bits w (suc n) n ≡ 0 → (k : ℕ) × (suc n ≡ pow2 k)
unfolding and_bits
and_bits-pow2 zero n h e = absurd (omega arith)
and_bits-pow2 (suc w) n h e = elim (Bool-cases (n % 2 == 0)) [
  | inl odd ↦
      let half : suc n / 2 ≡ n / 2 = ground arith in
      let shared : and_bits w (suc n / 2) (n / 2) ≡ 0 = grind arith in
      let none : and_bits w (n / 2) (n / 2) ≡ 0 = rw half at shared in
      let zero_is : n / 2 ≡ 0 = sym (and_bits_same w (n / 2) (omega arith)) ∙ none in
      (0, ground arith)
  | inr even ↦
      let half : suc n / 2 ≡ suc (n / 2) = ground arith in
      let shared : and_bits w (suc n / 2) (n / 2) ≡ 0 = grind arith in
      let (k, is_pow) = and_bits-pow2 w (n / 2) (omega arith) (rw half at shared) in
      (suc k, ground arith)
]

-- The bits of `stride` are those of a power of two, and there is a worker at least.
abbrev pub IsValid : CaptureOption → Type 0
IsValid arg =
    ((k : ℕ) × (to_unsigned 32 arg.stride ≡ pow2 k)) × ((n : ℕ) × (arg.workers ≡ pos (suc n)))

-- If it is parsed, the options are so.
abbrev pub IfParsed : (CaptureOption → Type 0) → ParseResult → Type 0
IfParsed P (parsed arg) = P arg
IfParsed P (exited status) = Unit
IfParsed P (thrown why) = Unit

with_int_lem :
    (optarg : Text) (next : ℤ → ParseResult)
    → ((v : ℤ) → IsInt v → IfParsed IsValid (next v))
    → IfParsed IsValid (with_int optarg next)
with_int_lem optarg next h = go (stoi optarg) refl
  where
    go :
        (o : Outcome ℤ)
        → stoi optarg ≡ o
        → IfParsed IsValid (elim o [ ok v ↦ next v | fault why ↦ thrown why ])
    go (ok v) e = h v (stoi-IsInt optarg v e)
    go (fault why) e = tt

set_workers_lem : (arg : CaptureOption) (v : ℤ) → IsValid arg → IfParsed IsValid (set_workers arg v)
set_workers_lem arg (pos zero) a = tt
set_workers_lem arg (pos (suc n)) a = (a.0, (n, refl))
set_workers_lem arg (negsuc n) a = tt

no_bit : (n : ℕ) → ok (not (n == 0)) ≡ ok false → n ≡ 0
no_bit n h = ground arith

good_stride-pow2 :
    (v : ℤ) → IsInt v → is_bad_stride v ≡ ok false → (k : ℕ) × (to_unsigned 32 v ≡ pow2 k)
unfolding is_bad_stride
good_stride-pow2 (pos zero) small h = cc
good_stride-pow2 (pos (suc n)) small h =
    and_bits-pow2 32 n (omega arith) (no_bit (and_bits 32 (suc n) n) h)
good_stride-pow2 (negsuc n) small h = elim (Bool-cases (n == 2 ^ 31 - 1)) [
  | inl least ↦ let thrown_is = rw least at h in cc
  | inr above ↦
      let before : 2 ^ 32 - 1 - n ≡ suc (2 ^ 32 - 2 - n) = omega arith in
      let shared = no_bit (and_bits 32 (2 ^ 32 - 1 - n) (2 ^ 32 - 2 - n)) (rw above at h) in
      let (k, is_pow) = and_bits-pow2 32 (2 ^ 32 - 2 - n) (omega arith) (rw before at shared) in
      (k, before ∙ is_pow)
]

set_stride_lem :
    (arg : CaptureOption) (v : ℤ) → IsInt v → IsValid arg → IfParsed IsValid (set_stride arg v)
set_stride_lem arg v small a = go (is_bad_stride v) refl
  where
    go :
        (o : Outcome Bool)
        → is_bad_stride v ≡ o
        → IfParsed IsValid (elim o [
          | ok true ↦ exited 1
          | ok false ↦ parsed (record arg { stride = v })
          | fault why ↦ thrown why
        ])
    go (ok true) e = tt
    go (ok false) e = (good_stride-pow2 v small e, a.1)
    go (fault why) e = tt

set_separator_lem :
    (arg : CaptureOption) (optarg : Text)
    → IsValid arg
    → IfParsed IsValid (set_separator arg optarg)
set_separator_lem arg optarg a = elim (Bool-cases (leb (length optarg) 4)) [
  | inl fits ↦ rw fits a
  | inr over ↦ rw over tt
]

parse_option_lem :
    (arg : CaptureOption) (c : Case) (optarg : Text)
    → IsValid arg
    → IfParsed IsValid (parse_option arg c optarg)
unfolding parse_option
parse_option_lem arg device_case optarg a = a
parse_option_lem arg caplen_case optarg a = a
parse_option_lem arg filter_case optarg a = a
parse_option_lem arg timestamp_case optarg a = a
parse_option_lem arg verbose_case optarg a = a
parse_option_lem arg brokers_case optarg a = a
parse_option_lem arg topic_case optarg a = a
parse_option_lem arg model_case optarg a = a
parse_option_lem arg index_case optarg a = a
parse_option_lem arg default_case optarg a = a
parse_option_lem arg duration_case optarg a = with_int_lem optarg _ (λ v _. a)
parse_option_lem arg cuda_case optarg a = with_int_lem optarg _ (λ v _. a)
parse_option_lem arg fill_case optarg a = with_int_lem optarg _ (λ v _. a)
parse_option_lem arg num_case optarg a = with_int_lem optarg _ (λ v _. a)
parse_option_lem arg wait1_case optarg a = with_int_lem optarg _ (λ v _. a)
parse_option_lem arg wait2_case optarg a = with_int_lem optarg _ (λ v _. a)
parse_option_lem arg payload_case optarg a = with_int_lem optarg _ (λ v _. a)
parse_option_lem arg min_case optarg a = with_int_lem optarg _ (λ v _. a)
parse_option_lem arg max_case optarg a = with_int_lem optarg _ (λ v _. a)
parse_option_lem arg timeout_case optarg a = with_int_lem optarg _ (λ v _. a)
parse_option_lem arg pool_case optarg a = with_int_lem optarg _ (λ v _. a)
parse_option_lem arg partition_case optarg a = with_int_lem optarg _ (λ v _. a)
parse_option_lem arg sep_case optarg a = set_separator_lem arg optarg a
parse_option_lem arg workers_case optarg a = with_int_lem optarg _ (λ v _. set_workers_lem arg v a)
parse_option_lem arg stride_case optarg a =
    with_int_lem optarg _ (λ v small. set_stride_lem arg v small a)
parse_option_lem arg unknown_case optarg a = tt
parse_option_lem arg help_case optarg a = tt

parse_loop_lem :
    (arg : CaptureOption) (answers : List (ℕ × Text))
    → IsValid arg
    → IfParsed IsValid (parse_loop arg answers)
unfolding parse_loop
parse_loop_lem arg [] a = a
parse_loop_lem arg ((option, optarg) ∷ answers) a =
    go (parse_option arg (find_case case_labels option) optarg)
      (parse_option_lem arg (find_case case_labels option) optarg a)
      (λ next b. parse_loop_lem next answers b)
  where
    go :
        (r : ParseResult)
        → IfParsed IsValid r
        → ((next : CaptureOption) → IsValid next → IfParsed IsValid (parse_loop next answers))
        → IfParsed IsValid (elim r [
          | parsed next ↦ parse_loop next answers
          | exited status ↦ exited status
          | thrown why ↦ thrown why
        ])
    go (parsed next) b ih = ih next b
    go (exited status) b ih = tt
    go (thrown why) b ih = tt

-- If at the start the bits of the stride are those of a power of two and there is one worker or
-- more, then whatever the command line, if parsing gives options and neither exits nor throws, the
-- same holds of them.
pub parse_options-IsValid :
    (arg : CaptureOption) (argc : ℕ) (answers : List (ℕ × Text))
    → IsValid arg
    → IfParsed IsValid (parse_options arg argc answers)
unfolding parse_options
parse_options-IsValid arg argc answers a = elim (Bool-cases (leb argc 1)) [
  | inl usage ↦ rw usage tt
  | inr more ↦ rw more (parse_loop_lem arg answers a)
]
