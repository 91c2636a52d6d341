-- ===== src/Cache/Dropped.antt =====
-- A child that leaves its parent: what the parent lists then, and what it keeps.
use onedriver.Prelude.{
  ℕ, String, Bool, true, false, Option, some, List, [], ◌∷◌, ◌++◌, ◌≡◌, refl, sym, ◌∙◌, inl, inr,
  arith, eq_refl, Bool-cases, if◌then◌else◌,
}
use onedriver.World.{Inode}
use onedriver.Cache.{holds, ids_of, drop_child, remove_first}

-- The first occurrence of an id goes.
remove_first-append :
    (id : String) (ids : List String)
    → holds id ids ≡ false
    → remove_first id (ids ++ id ∷ []) ≡ ids
unfolding remove_first holds
remove_first-append id [] h = rw (eq_refl) refl
remove_first-append id (child ∷ ids) h = ground (arith, remove_first-append id ids)

remove_first_absent :
    (id : String) (ids : List String) → holds id ids ≡ false → remove_first id ids ≡ ids
unfolding remove_first holds
remove_first_absent id [] h = refl
remove_first_absent id (child ∷ ids) h = ground (arith, remove_first_absent id ids)

pub part-drop_child :
    {A : Type 0} (part : Inode → A) (id : String) (directory : Bool) (i : Inode)
    → ((j : Inode) (c : Option (List String)) (s : ℕ)
        → part (record j { children = c; subdir = s }) ≡ part j)
    → part (drop_child id directory i) ≡ part i
unfolding drop_child
part-drop_child part id directory i same = elim (Bool-cases (holds id (ids_of i.children))) [
  | inl there ↦ rw there (same _ _ _)
  | inr gone ↦ rw gone refl
]

pub drop_child-children :
    (id : String) (directory : Bool) (i : Inode)
    → holds id (ids_of i.children) ≡ true
    → (drop_child id directory i).children ≡ some (remove_first id (ids_of i.children))
unfolding drop_child
drop_child-children id directory i there = rw there refl

-- A new id and its removal leave the other ids.
pub remaining :
    (id : String) (ids : List String)
    → remove_first id (if holds id ids then ids else ids ++ id ∷ []) ≡ remove_first id ids
remaining id ids = elim (Bool-cases (holds id ids)) [
  | inl there ↦ rw there refl
  | inr gone ↦ rw gone (remove_first-append id ids gone ∙ sym (remove_first_absent id ids gone))
]
