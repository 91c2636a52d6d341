-- ===== src/Tests/Names.antt =====
-- Examples for files that are found under their names.
use mathlib.Core.List
use mathlib.Core.List.{Perm}
use onedriver.Prelude.{ℕ, String, List, some, none, [], ◌∷◌, ◌≡◌, refl, arith, map_runes, lookup}
use onedriver.World.{World, done}
use onedriver.Fields.{is_dir, get_mode}
use onedriver.Open.{success, enoent}
use onedriver.Cache.{holds, remove_first}
use onedriver.File.{Attr}
use onedriver.Item.{ok}
use onedriver.Graph.{no_auth}
use onedriver.Cache.Children.{get_child}
use onedriver.Handlers.Shown.{read_dir_shows}
use onedriver.Handlers.{read_dir, create, unlink, look_up, one_of}
use onedriver.Handlers.Found.{create-look_up}
use onedriver.Handlers.Undone.{create-unlink}
use onedriver.Tests.{apart, sample_host, sample_world, willing}

create-look_up_example :
    (v : World (sample_host willing)) × (create
        (sample_host willing)
        0
        "new.txt"
        420
        (sample_world willing)
      ≡ done (some 3, success) v)
    × (attr : Attr) × (look_up (sample_host willing) 0 "new.txt" v
        ≡ done (some (3, attr), success) v)
unfolding lookup holds is_dir get_mode map_runes one_of
create-look_up_example =
    create-look_up (sample_host willing) 0 (sample_world willing) "new.txt" "new.txt" 420 refl refl
      (omega arith) (refl, tt) refl refl refl
      ((1, refl, omega arith, apart "notes.txt" "new.txt" refl), tt) refl refl

create-unlink_example :
    (v z : World (sample_host willing)) × (create
        (sample_host willing)
        0
        "new.txt"
        420
        (sample_world willing)
      ≡ done (some 3, success) v)
    × (unlink (sample_host willing) 0 "new.txt" v ≡ done success z)
    × (look_up (sample_host willing) 0 "new.txt" z ≡ done (none, enoent) z)
    × (lookup (v.heap 3).id z.metadata ≡ none)
    × ((z.heap 0).children ≡ some (remove_first (v.heap 3).id ("F" ∷ [])))
    × (z.sent ≡ [])
unfolding lookup holds is_dir get_mode map_runes one_of
create-unlink_example =
    create-unlink (sample_host willing) 0 (sample_world willing) "new.txt" "new.txt" 420 ("F" ∷ [])
      refl refl (omega arith) refl (refl, tt) refl refl refl
      ((1, refl, omega arith, apart "notes.txt" "new.txt" refl), tt) refl refl

-- A range that goes through the children from the last to the first.
read_dir_shows_example :
    (entries : List (String × ℕ)) × (read_dir
        (sample_host willing)
        0
        List.reverse
        (sample_world willing)
      ≡ done (entries, success) (sample_world willing))
    × Perm entries (("notes.txt", 33188) ∷ [])
    × (get_child (sample_host willing) "R" "notes.txt" no_auth (sample_world willing)
        ≡ done (ok 1) (sample_world willing))
unfolding lookup holds is_dir get_mode map_runes
read_dir_shows_example =
    read_dir_shows (sample_host willing) (sample_world willing) 0 (("F", 1) ∷ []) "F" "notes.txt" 1
      no_auth List.reverse List.reverse_perm refl refl refl refl (refl, tt) (refl, tt) refl refl
