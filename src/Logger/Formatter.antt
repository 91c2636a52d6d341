-- ===== src/Logger/Formatter.antt =====
-- logger/logger.go: the level that is kept, and the formatter of the log's lines.
use Prim.Native.String.{◌++◌, len}
use mathlib.Core.Option
use onedriver.Prelude.{
  ℕ, zero, suc, ◌-◌, Bool, true, Option, String, if◌then◌else◌, starts_with, path_base, decimal,
}
use onedriver.Logger.{goroutine_id}

-- LogLevel, and the level that a program starts with.
pub data LogLevel : Type 0 where
  fatal error warn info trace : LogLevel

abbrev pub initial_level : LogLevel
initial_level = info

-- SetLogLevel: what is left of the current level.
abbrev pub set_log_level : LogLevel → LogLevel → LogLevel
set_log_level level current = level

-- strings.Replace of every `old` by nothing; `skip` characters of one are still to be left out.
unfoldable pub remove_all : String → ℕ → String → String
remove_all old skip String.[] = ""
remove_all old (suc skip) (String.◌∷◌ c s) = remove_all old skip s
remove_all old zero (String.◌∷◌ c s) =
    let rest = remove_all old (len old - 1) s in
    let kept = remove_all old 0 s in
    if starts_with (String.◌∷◌ c s) old then rest else String.◌∷◌ c kept

-- `%06d`
unfoldable pub zeros : ℕ → String
zeros zero = ""
zeros (suc n) = "0" ++ zeros n

unfoldable pub six_digits : ℕ → String
six_digits n = zeros (6 - len (decimal n)) ++ decimal n

-- runtime.Frame: what the runtime tells of a call.
pub record Frame : Type 0 where
  pub file : String
  pub line : ℕ
  pub function : String

-- CallerPrettyfier, with what runtime.Stack writes: the texts for the function and for the file.
unfoldable pub prettify : String → Frame → Option (String × String)
prettify stack f =
    Option.map
      (λ id. (
        six_digits id ++ ":" ++ remove_all "github.com/jstaf/onedriver/" 0 f.function ++ "()",
        path_base f.file ++ ":" ++ decimal f.line,
      ))
      (goroutine_id stack)

-- log.TextFormatter
pub record TextFormatter : Type 0 where
  pub full_timestamp : Bool
  pub timestamp_format : String
  pub caller_prettyfier : String → Frame → Option (String × String)

-- LogrusFormatter
unfoldable pub logrus_formatter : TextFormatter
logrus_formatter = record {
  full_timestamp = true;
  timestamp_format = "2006-01-02T15:04:05";
  caller_prettyfier = prettify;
}
