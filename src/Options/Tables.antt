-- ===== src/Options/Tables.antt =====
-- The tables of include/hound/common/util.hpp, without the options under HD_FUTURE_SUPPORT.
use huntind.Common.{ℕ, List, [], ◌∷◌, Option, none, some, ◌==◌, if◌then◌else◌}
use huntind.Strings.{Text, codes}

pub data HasArg : Type 0 where
  no_argument required_argument : HasArg

pub record LongOption : Type 0 where
  pub name : Text
  pub has_arg : HasArg
  pub val : ℕ

abbrev pub long_option : Text → HasArg → ℕ → LongOption
long_option name has_arg val = record { name = name; has_arg = has_arg; val = val }

abbrev pub longopts : List LongOption
longopts =
    long_option (codes "device") required_argument b'd'
    ∷ long_option (codes "workers") required_argument b'J'
    ∷ long_option (codes "duration") required_argument b'D'
    ∷ long_option (codes "filter") required_argument b'F'
    ∷ long_option (codes "fill") required_argument b'f'
    ∷ long_option (codes "cuda") required_argument b'c'
    ∷ long_option (codes "num") required_argument b'N'
    ∷ long_option (codes "min") required_argument b'L'
    ∷ long_option (codes "max") required_argument b'R'
    ∷ long_option (codes "timeout") required_argument b'E'
    ∷ long_option (codes "sep") required_argument b'm'
    ∷ long_option (codes "brokers") required_argument b'B'
    ∷ long_option (codes "pool") required_argument b'b'
    ∷ long_option (codes "topic") required_argument b'y'
    ∷ long_option (codes "model") required_argument b'M'
    ∷ long_option (codes "wait1") required_argument b'.'
    ∷ long_option (codes "wait2") required_argument b'/'
    ∷ long_option (codes "index") required_argument b'I'
    ∷ long_option (codes "stride") required_argument b'S'
    ∷ long_option (codes "write") required_argument b'W'
    ∷ long_option (codes "payload") required_argument b'p'
    ∷ long_option (codes "help") no_argument b'h'
    ∷ long_option (codes "timestamp") no_argument b'T'
    ∷ long_option (codes "caplen") no_argument b'C'
    ∷ long_option (codes "verbose") no_argument b'V'
    ∷ []

abbrev pub shortopts : Text
shortopts = codes "c:J:P:W:F:f:N:E:D:S:L:R:p:CTVhIM:m:B:b:x:y:/:.:"

-- What `shortopts` says of an option: a colon behind it asks for an argument.
unfoldable pub short_has_arg : Text → (val : ℕ) → Option HasArg
short_has_arg [] val = none
short_has_arg (c ∷ []) val = if c == val then some no_argument else none
short_has_arg (c ∷ d ∷ rest) val =
    let later = short_has_arg (d ∷ rest) val in
    if c == val then (if d == b':' then some required_argument else some no_argument) else later

abbrev pub signal_msgs : List (ℕ × Text)
signal_msgs =
    (23, codes "SIGURG: Urgent data is available at a socket.")
    ∷ (19, codes "SIGSTOP: Stop, unblockable.")
    ∷ (20, codes "SIGTSTP: Keyboard stop.")
    ∷ (18, codes "SIGCONT: Continue.")
    ∷ (17, codes "SIGCHLD: Child terminated or stopped.")
    ∷ (21, codes "SIGTTIN: Background read from control terminal.")
    ∷ (22, codes "SIGTTOU: Background write to control terminal.")
    ∷ (29, codes "SIGPOLL: Pollable event occurred (System V).")
    ∷ (25, codes "SIGXFSZ: File size limit exceeded.")
    ∷ (24, codes "SIGXCPU: CPU time limit exceeded.")
    ∷ (26, codes "SIGVTALR: Virtual timer expired.")
    ∷ (27, codes "SIGPROF: Profiling timer expired.")
    ∷ (16, codes "SIGSTKFLT: Stack fault (obsolete).")
    ∷ (30, codes "SIGPWR: Power failure imminent.")
    ∷ (7, codes "SIGBUS: Bus error.")
    ∷ (31, codes "SIGSYS: Bad system call.")
    ∷ (2, codes "SIGINT: Interactive attention signal.")
    ∷ (4, codes "SIGILL: Illegal instruction.")
    ∷ (6, codes "SIGABRT: Abnormal termination.")
    ∷ (8, codes "SIGFPE: Erroneous arithmetic operation.")
    ∷ (11, codes "SIGSEGV: Invalid access to storage.")
    ∷ (15, codes "SIGTERM: Termination request.")
    ∷ (0, codes "NORMAL: Normal exit, no error(s).")
    ∷ (1, codes "SIGHUP: Hangup.")
    ∷ (3, codes "SIGQUIT: Quit.")
    ∷ (5, codes "SIGTRAP: Trace/breakpoint trap.")
    ∷ (9, codes "SIGKILL: Killed.")
    ∷ (13, codes "SIGPIPE: Broken pipe.")
    ∷ (14, codes "SIGALRM: Alarm clock.")
    ∷ []

-- `signal_msgs[signal]` gives an empty text where there is none.
unfoldable pub find_msg : List (ℕ × Text) → ℕ → Text
find_msg [] signal = []
find_msg ((n, msg) ∷ msgs) signal =
    let rest = find_msg msgs signal in if n == signal then msg else rest
