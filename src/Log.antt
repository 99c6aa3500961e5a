-- ===== src/Log.antt =====
-- include/hound/common/macro.hpp: what of the log is compiled in, and the colours of its texts. A text
-- of the log is the list of its characters.
use huntind.Common.{
  ℤ, pos, negsuc, ◌+◌, List, [], ◌∷◌, ◌++◌, Bool, true, false, if◌then◌else◌, Option, none, some,
}
use huntind.Strings.{Text, codes, to_string}

pub data Severity : Type 0 where
  trace debug info warn error fatal : Severity

-- The macros that are defined for the build.
pub record Build : Type 0 where
  pub log_level_trace : Bool
  pub log_level_debug : Bool
  pub log_level_info : Bool
  pub log_level_warn : Bool
  pub log_level_error : Bool
  pub log_level_fatal : Bool
  pub enable_console_log : Bool

abbrev pub Entry : Type 0
Entry = Severity × Text

-- `ETRACE(x)`, `EDEBUG(x)` and `EINFO(x)`: `x`, or an empty statement.
abbrev pub etrace : Build → List Entry → List Entry
etrace build x = if build.log_level_trace then x else []

abbrev pub edebug : Build → List Entry → List Entry
edebug build x = if build.log_level_debug then x else []

abbrev pub einfo : Build → List Entry → List Entry
einfo build x = if build.log_level_info then x else []

-- `minSeverity`, if one of the macros is defined.
unfoldable pub min_severity : Build → Option Severity
min_severity build =
    if build.log_level_trace
    then some trace
    else if build.log_level_debug
    then some debug
    else if build.log_level_info
    then some info
    else if build.log_level_warn
    then some warn
    else if build.log_level_error
    then some error
    else if build.log_level_fatal
    then some fatal
    else none

-- `enableConsole` and `realTimeFlush`
abbrev pub console_and_flush : Build → Bool × Bool
console_and_flush build = if build.enable_console_log then (true, false) else (false, true)

-- "\x1b[", the number of the colour, the text, and "\033[0m".
abbrev colored : (number : Text) → Text → Text
colored number x = (27 ∷ codes "[") ++ number ++ x ++ (27 ∷ codes "[0m")

abbrev pub red : Text → Text
red x = colored (codes "31;1m") x

abbrev pub green : Text → Text
green x = colored (codes "32;1m") x

abbrev pub yellow : Text → Text
yellow x = colored (codes "33;1m") x

abbrev pub blue : Text → Text
blue x = colored (codes "34;1m") x

abbrev pub cyan : Text → Text
cyan x = colored (codes "36;1m") x

abbrev pub white : Text → Text
white x = colored (codes "38;1m") x

-- How a signed number is printed.
abbrev pub int_text : ℤ → Text
int_text (pos n) = to_string n
int_text (negsuc n) = b'-' ∷ to_string (n + 1)

-- The text that `~capture_option` prints.
unfoldable pub farewell : (verbose : Bool) → Text
farewell verbose =
    if verbose then codes "\t\t\t\t" ++ cyan (codes "运行完成， 没有bug我很开心") ++ codes "\n" else []
