-- ===== src/Prelude/Text.antt =====
-- What the program uses of Go's `strings`, `strconv` and `path/filepath`, over the native texts.
use Prim.Native.Char.{Char, code}
use Prim.Native.Nat.{ℕ, zero, suc, ◌/◌, ◌%◌}
use Prim.Native.String.{String, ◌++◌, len, slice}
use mathlib.Core.Bool.{Bool}
use mathlib.Core.List.{List, [], ◌∷◌}
use text.Mathlib.Text.{starts_with, find?, ◌==◌ as str_eq}
use onedriver.Prelude.Tests.{◌==◌, if◌then◌else◌, is_some}

-- strings.Contains
abbrev pub contains : String → String → Bool
contains s sub = is_some (find? s sub)

-- strings.TrimPrefix
abbrev pub trim_prefix : String → String → String
trim_prefix s prefix = if starts_with s prefix then slice s (len prefix) (len s) else s

-- Puts a character in front of the first part.
abbrev pub onto_first : Char → List String → List String
onto_first c [] = String.◌∷◌ c "" ∷ []
onto_first c (part ∷ parts) = String.◌∷◌ c part ∷ parts

-- strings.Split(s, "/")
unfoldable pub split_slash : String → List String
split_slash String.[] = "" ∷ []
split_slash (String.◌∷◌ c s) =
    let rest = split_slash s in if code c == b'/' then "" ∷ rest else onto_first c rest

-- strings.Join(parts, "/")
unfoldable pub join_slash : List String → String
join_slash [] = ""
join_slash (part ∷ []) = part
join_slash (part ∷ next ∷ parts) = part ++ "/" ++ join_slash (next ∷ parts)

-- strings.TrimSuffix(s, "/")
unfoldable pub trim_slash : String → String
trim_slash String.[] = ""
trim_slash (String.◌∷◌ c s) =
    let rest = String.◌∷◌ c (trim_slash s) in
    if code c == b'/' then (if str_eq s "" then "" else rest) else rest

-- strings.Replace(s, "//", "/", -1): leftmost pairs, which do not overlap.
unfoldable pub collapse_slashes : String → String
collapse_slashes String.[] = ""
collapse_slashes (String.◌∷◌ c String.[]) = String.◌∷◌ c ""
collapse_slashes (String.◌∷◌ c (String.◌∷◌ d s)) =
    let both = String.◌∷◌ c (collapse_slashes s) in
    let one = String.◌∷◌ c (collapse_slashes (String.◌∷◌ d s)) in
    if code c == b'/' then (if code d == b'/' then both else one) else one

-- strings.ToLower maps each rune by `unicode.ToLower`, which is the argument.
unfoldable pub map_runes : (Char → Char) → String → String
map_runes f String.[] = ""
map_runes f (String.◌∷◌ c s) = String.◌∷◌ (f c) (map_runes f s)

abbrev digit : ℕ → String
digit zero = "0"
digit (suc zero) = "1"
digit (suc (suc zero)) = "2"
digit (suc (suc (suc zero))) = "3"
digit (suc (suc (suc (suc zero)))) = "4"
digit (suc (suc (suc (suc (suc zero))))) = "5"
digit (suc (suc (suc (suc (suc (suc zero)))))) = "6"
digit (suc (suc (suc (suc (suc (suc (suc zero))))))) = "7"
digit (suc (suc (suc (suc (suc (suc (suc (suc zero)))))))) = "8"
digit _ = "9"

digits : ℕ → ℕ → ℕ → String → String
digits base zero n acc = acc
digits base (suc fuel) n acc =
    let rest = digits base fuel (n / base) (digit (n % base) ++ acc) in if n == 0 then acc else rest

-- A number in a base up to ten.
unfoldable pub in_base : ℕ → ℕ → String
unfolding digits
in_base base n = if n == 0 then "0" else digits base n n ""

-- `%d` of a number that is not negative; `n` rounds are enough for its digits.
unfoldable pub decimal : ℕ → String
unfolding in_base
decimal n = in_base 10 n
