-- ===== src/Prelude/Paths.antt =====
-- Go's `path/filepath`, lexically, as the program uses it: Clean, Dir, Base and Join of two parts.
use Prim.Native.String.{String, ◌++◌}
use mathlib.Core.Bool.{Bool, ◌||◌}
use mathlib.Core.List.{List, [], ◌∷◌, reverse}
use text.Mathlib.Text.{◌==◌, starts_with}
use onedriver.Prelude.Tests.{if◌then◌else◌}
use onedriver.Prelude.Text.{split_slash, join_slash}

-- One element of a path over the elements kept so far, last first.
abbrev push_element : Bool → String → List String → List String
push_element rooted part [] = if part == ".." then (if rooted then [] else part ∷ []) else part ∷ []
push_element rooted part (top ∷ kept) =
    if part == ".." then (if top == ".." then part ∷ top ∷ kept else kept) else part ∷ top ∷ kept

reduce : Bool → List String → List String → List String
reduce rooted kept [] = reverse kept
reduce rooted kept (part ∷ parts) =
    reduce rooted (if part == "" || part == "." then kept else push_element rooted part kept) parts

-- filepath.Clean
unfoldable pub clean_path : String → String
unfolding reduce split_slash join_slash
clean_path path =
    let rooted = starts_with path "/" in
    let body = join_slash (reduce rooted [] (split_slash path)) in
    if rooted then "/" ++ body else if body == "" then "." else body

last_part : List String → String
last_part [] = ""
last_part (part ∷ []) = part
last_part (part ∷ next ∷ parts) = last_part (next ∷ parts)

-- Everything up to the last element, with its slash.
without_last : List String → List String
without_last [] = []
without_last (part ∷ []) = "" ∷ []
without_last (part ∷ next ∷ parts) = part ∷ without_last (next ∷ parts)

-- filepath.Dir
unfoldable pub path_dir : String → String
unfolding clean_path without_last
path_dir path = clean_path (join_slash (without_last (split_slash path)))

-- The elements without the empty ones at the end, which trailing slashes leave.
drop_trailing : List String → List String
drop_trailing [] = []
drop_trailing (part ∷ parts) =
    let rest = drop_trailing parts in
    elim rest [ [] ↦ (if part == "" then [] else part ∷ []) | q ∷ qs ↦ part ∷ q ∷ qs ]

-- filepath.Base
unfoldable pub path_base : String → String
unfolding split_slash last_part drop_trailing
path_base path =
    let name = last_part (drop_trailing (split_slash path)) in
    if path == "" then "." else if name == "" then "/" else name

-- filepath.Join of two parts; an empty one is skipped.
unfoldable pub path_join : String → String → String
unfolding clean_path
path_join a b =
    if a == ""
    then (if b == "" then "" else clean_path b)
    else if b == ""
    then clean_path a
    else clean_path (a ++ "/" ++ b)
