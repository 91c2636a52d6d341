-- ===== src/Auth/Code.antt =====
-- graph/oauth2_headless.go and graph/oauth2_gtk.go: the code in the URL at which the user arrives,
-- and the URL that is shown to the user.
use Prim.Native.Char.{code}
use Prim.Native.String.{len, slice}
use onedriver.Prelude.{ℕ, String, Bool, ◌||◌, ◌&&◌, if◌then◌else◌, leb, ◌==◌, str_eq, starts_with}

-- [a-zA-Z0-9-_]
unfoldable pub is_code_char : ℕ → Bool
is_code_char c =
    (leb b'a' c && leb c b'z')
    || (leb b'A' c && leb c b'Z')
    || (leb b'0' c && leb c b'9')
    || c == b'-'
    || c == b'_'

-- The longest run of such characters at the start of a text.
unfoldable pub code_run : String → String
code_run String.[] = ""
code_run (String.◌∷◌ c s) =
    let rest = String.◌∷◌ c (code_run s) in if is_code_char (code c) then rest else ""

-- What follows "code=" at the start of a text; "" where that is not its start.
abbrev pub code_here : String → String
code_here s = if starts_with s "code=" then code_run (slice s 5 (len s)) else ""

-- The leftmost match of "code=([a-zA-Z0-9-_])+" without its first five characters; "" for no match.
unfoldable pub find_code : String → String
find_code String.[] = ""
find_code (String.◌∷◌ c s) =
    let rest = find_code s in
    let here = code_here (String.◌∷◌ c s) in if str_eq here "" then rest else here
