-- ===== src/Logger.antt =====
-- logger/logger.go: the texts of the log.
pub mod Formatter
use Prim.Native.Char.{code}
use Prim.Native.String.{◌++◌, len, slice}
use mathlib.Core.Option
use onedriver.Prelude.{
  ℕ, zero, suc, ◌+◌, ◌-◌, ◌*◌, ◌^◌, ◌&&◌, min, ltb, leb, trim_prefix, Option, none, some, Char,
  String, if◌then◌else◌, ◌==◌, str_eq, map_runes, path_base, decimal,
}

-- The levels of logrus.
pub data Level : Type 0 where
  fatal_level error_level warn_level info_level debug_level trace_level : Level

-- StringToLevel; `lower` is unicode.ToLower.
unfoldable pub string_to_level : (Char → Char) → String → Level
string_to_level lower text =
    let level = map_runes lower text in
    if str_eq level "fatal"
    then fatal_level
    else if str_eq level "error"
    then error_level
    else if str_eq level "warn"
    then warn_level
    else if str_eq level "info"
    then info_level
    else if str_eq level "debug"
    then debug_level
    else trace_level

-- The loop of funcName: the place of the last dot among the characters from the i-th on.
unfoldable pub last_dot : String → ℕ → ℕ → ℕ
last_dot String.[] i found = found
last_dot (String.◌∷◌ c s) i found = last_dot s (i + 1) (if code c == b'.' then i else found)

-- strings.Repeat of a space.
unfoldable pub spaces : ℕ → String
spaces zero = ""
spaces (suc n) = " " ++ spaces n

-- funcName, of the name that the runtime has for a function.
unfoldable pub func_name : String → String
unfolding last_dot
func_name name =
    let dot = last_dot name 0 0 in
    if dot == 0 then path_base name else slice name (dot + 1) (len name) ++ "()"

-- What stands before the first space of a text; without one, the slice panics.
unfoldable pub before_space : String → Option String
before_space String.[] = none
before_space (String.◌∷◌ c s) =
    let rest = Option.map (String.◌∷◌ c) (before_space s) in
    if code c == b' ' then some "" else rest

-- The number that digits stand for, behind the value of those before.
unfoldable pub parse_digits : String → ℕ → Option ℕ
parse_digits String.[] n = some n
parse_digits (String.◌∷◌ c s) n =
    let rest = parse_digits s (n * 10 + (code c - b'0')) in
    if leb b'0' (code c) && leb (code c) b'9' then rest else none

-- strconv.ParseUint without its error: 0 for no number, and the largest for one that is too large.
unfoldable pub parse_uint : String → ℕ
parse_uint text =
    if str_eq text ""
    then 0
    else elim (parse_digits text 0) [ none ↦ 0 | some n ↦ min n (2 ^ 64 - 1) ]

-- goroutineID, of what runtime.Stack writes.
unfoldable pub goroutine_id : String → Option ℕ
goroutine_id stack = Option.map parse_uint (before_space (trim_prefix stack "goroutine "))

-- Caller, of what the runtime tells of the call: the goroutine's stack, the file, the line and the
-- function, which may be unknown.
unfoldable pub caller : String → String → ℕ → Option String → Option String
unfolding func_name
caller stack file line function =
    let name : String = elim function [
      | some known ↦ func_name known
      | none ↦ "(unknown source)"
    ] in
    Option.map (λ id. decimal id ++ ":" ++ path_base file ++ ":" ++ decimal line ++ ":" ++ name)
      (goroutine_id stack)

-- pad
unfoldable pub pad : String → ℕ → String
pad text length = if ltb (len text) length then text ++ spaces (length - len text) else text
