-- ===== src/Options.antt =====
-- `ParseOptions` of source/util.cpp. getopt_long is not part of the repository: its answers, each an
-- option with its argument, come in as a list. An `exit` ends the parse with its status.
pub mod Usage
pub mod Tables
pub mod Number
pub mod Valid
pub mod Examples
use huntind.Common.{
  ℕ, zero, suc, ◌+◌, ◌-◌, ◌*◌, ◌/◌, ◌%◌, ◌^◌, List, [], ◌∷◌, ◌++◌, Bool, true, false, not, ◌||◌,
  length, ltb, leb, ◌==◌, if◌then◌else◌, ℤ, pos, negsuc,
}
use huntind.Common.Outcome.{Fault, Outcome, ok, fault, out_of_bounds, arithmetic_overflow}
use huntind.Strings.{Text, codes}
use huntind.Settings.{CaptureOption}
use Number.{stoi}

-- The case labels of the switch.
pub data Case : Type 0 where
  device_case : Case
  duration_case : Case
  caplen_case : Case
  filter_case : Case
  cuda_case : Case
  fill_case : Case
  num_case : Case
  wait1_case : Case
  wait2_case : Case
  payload_case : Case
  min_case : Case
  max_case : Case
  timeout_case : Case
  timestamp_case : Case
  verbose_case : Case
  sep_case : Case
  brokers_case : Case
  pool_case : Case
  partition_case : Case
  topic_case : Case
  model_case : Case
  index_case : Case
  workers_case : Case
  stride_case : Case
  unknown_case : Case
  help_case : Case
  default_case : Case

abbrev pub case_labels : List (ℕ × Case)
case_labels =
    (b'd', device_case)
    ∷ (b'D', duration_case)
    ∷ (b'C', caplen_case)
    ∷ (b'F', filter_case)
    ∷ (b'c', cuda_case)
    ∷ (b'f', fill_case)
    ∷ (b'N', num_case)
    ∷ (b'.', wait1_case)
    ∷ (b'/', wait2_case)
    ∷ (b'p', payload_case)
    ∷ (b'L', min_case)
    ∷ (b'R', max_case)
    ∷ (b'E', timeout_case)
    ∷ (b'T', timestamp_case)
    ∷ (b'V', verbose_case)
    ∷ (b'm', sep_case)
    ∷ (b'B', brokers_case)
    ∷ (b'b', pool_case)
    ∷ (b'x', partition_case)
    ∷ (b'y', topic_case)
    ∷ (b'M', model_case)
    ∷ (b'I', index_case)
    ∷ (b'J', workers_case)
    ∷ (b'S', stride_case)
    ∷ (b'?', unknown_case)
    ∷ (b'h', help_case)
    ∷ []

abbrev pub find_case : List (ℕ × Case) → (option : ℕ) → Case
find_case [] option = default_case
find_case ((label, c) ∷ labels) option =
    let rest = find_case labels option in if label == option then c else rest

pub data ParseResult : Type 0 where
  parsed : CaptureOption → ParseResult
  exited : (status : ℕ) → ParseResult
  thrown : Fault → ParseResult

-- An `int` as an unsigned number of 32 or 64 bits.
abbrev pub to_unsigned : (bits : ℕ) → ℤ → ℕ
to_unsigned bits (pos n) = n
to_unsigned bits (negsuc n) = 2 ^ bits - 1 - n

-- `a & b` on numbers of `w` bits.
unfoldable pub and_bits : (w : ℕ) → ℕ → ℕ → ℕ
and_bits zero a b = 0
and_bits (suc w) a b = a % 2 * (b % 2) + 2 * and_bits w (a / 2) (b / 2)

-- `stride & stride - 1 or stride == 0`; the least `int` has none before it.
unfoldable pub is_bad_stride : ℤ → Outcome Bool
is_bad_stride (pos zero) = ok true
is_bad_stride (pos (suc n)) = ok (not (and_bits 32 (suc n) n == 0))
is_bad_stride (negsuc n) =
    if n == 2 ^ 31 - 1
    then fault arithmetic_overflow
    else ok (not (and_bits 32 (2 ^ 32 - 1 - n) (2 ^ 32 - 2 - n) == 0))

-- What is done with the number that an argument stands for.
abbrev pub with_int : Text → (ℤ → ParseResult) → ParseResult
with_int optarg next = elim (stoi optarg) [ ok v ↦ next v | fault why ↦ thrown why ]

-- `sprintf` into `char format[8]`: "%ld", the separator and a zero byte.
abbrev pub set_separator : CaptureOption → Text → ParseResult
set_separator arg optarg =
    if leb (length optarg) 4
    then parsed (record arg { separator = optarg; format = codes "%ld" ++ optarg })
    else thrown out_of_bounds

abbrev pub set_workers : CaptureOption → ℤ → ParseResult
set_workers arg (pos zero) = exited 1
set_workers arg (pos (suc n)) = parsed (record arg { workers = pos (suc n) })
set_workers arg (negsuc n) = exited 1

abbrev pub set_stride : CaptureOption → ℤ → ParseResult
set_stride arg v = elim (is_bad_stride v) [
  | ok true ↦ exited 1
  | ok false ↦ parsed (record arg { stride = v })
  | fault why ↦ thrown why
]

unfoldable pub parse_option : CaptureOption → Case → (optarg : Text) → ParseResult
parse_option arg device_case optarg = parsed (record arg { device = optarg })
parse_option arg duration_case optarg = with_int optarg λ v. parsed (record arg { duration = v })
parse_option arg caplen_case optarg = parsed (record arg { include_pktlen = true })
parse_option arg filter_case optarg = parsed (record arg { filter = optarg })
parse_option arg cuda_case optarg =
    with_int optarg λ v. parsed (record arg { num_gpus = to_unsigned 32 v })
parse_option arg fill_case optarg = with_int optarg λ v. parsed (record arg { fill_bit = v })
parse_option arg num_case optarg = with_int optarg λ v. parsed (record arg { num_packets = v })
parse_option arg wait1_case optarg = with_int optarg λ v. parsed (record arg { wait1 = v })
parse_option arg wait2_case optarg = with_int optarg λ v. parsed (record arg { wait2 = v })
parse_option arg payload_case optarg = with_int optarg λ v.
    parsed (record arg { payload = v; total_bytes = (arg.total_bytes + to_unsigned 32 v) % 2 ^ 32 })
parse_option arg min_case optarg = with_int optarg λ v. parsed (record arg { min_packets = v })
parse_option arg max_case optarg = with_int optarg λ v. parsed (record arg { max_packets = v })
parse_option arg timeout_case optarg = with_int optarg λ v. parsed (record arg { flow_timeout = v })
parse_option arg timestamp_case optarg = parsed (record arg { include_ts = true })
parse_option arg verbose_case optarg = parsed (record arg { verbose = true })
parse_option arg sep_case optarg = set_separator arg optarg
parse_option arg brokers_case optarg = parsed (record arg { brokers = optarg })
parse_option arg pool_case optarg =
    with_int optarg λ v. parsed (record arg { pool_size = to_unsigned 64 v })
parse_option arg partition_case optarg = with_int optarg λ v. parsed arg
parse_option arg topic_case optarg = parsed (record arg { topic = optarg })
parse_option arg model_case optarg = parsed (record arg { model_path = optarg })
parse_option arg index_case optarg = parsed (record arg { include_5tpl = true })
parse_option arg workers_case optarg = with_int optarg λ v. set_workers arg v
parse_option arg stride_case optarg = with_int optarg λ v. set_stride arg v
parse_option arg unknown_case optarg = exited 1
parse_option arg help_case optarg = exited 0
parse_option arg default_case optarg = parsed arg

-- The loop, on what getopt_long answers before it answers -1.
unfoldable pub parse_loop : CaptureOption → List (ℕ × Text) → ParseResult
parse_loop arg [] = parsed arg
parse_loop arg ((option, optarg) ∷ answers) =
    elim (parse_option arg (find_case case_labels option) optarg) [
      | parsed next ↦ parse_loop next answers
      | exited status ↦ exited status
      | thrown why ↦ thrown why
    ]

-- Without an argument the usage is printed.
unfoldable pub parse_options : CaptureOption → (argc : ℕ) → List (ℕ × Text) → ParseResult
parse_options arg argc answers = if leb argc 1 then exited 0 else parse_loop arg answers
