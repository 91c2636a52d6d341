-- ===== src/Handlers/Shown.antt =====
-- Readdir of a directory whose children are in memory: each child with its name and mode.
use onedriver.Prelude.{
  ℕ, String, true, false, none, some, List, [], ◌∷◌, ◌++◌, ◌≡◌, refl, sym, ap, subst, ◌∙◌, arith,
  str_eq, eq_iff, eq_refl, inl, inr, Bool-cases, lookup, insert,
}
use mathlib.Core.List
use mathlib.Core.List.Perm
use mathlib.Core.List.{Perm, append_assoc, append-nil}
use onedriver.Item.{ok}
use onedriver.Host.{Host}
use onedriver.World.{Ptr, World, done}
use onedriver.Fields.{is_dir, get_mode}
use onedriver.Graph.{AuthRef}
use onedriver.Cache.{holds}
use onedriver.Cache.Members.{Distinct}
use onedriver.Cache.Lookup.{get_id_hit}
use onedriver.Cache.Find.{key, Keyed, find_child-lookup}
use onedriver.Cache.Children.{
  Children, to_lower, enter, collect, find_among, get_child, children_of, list_found,
  get_children_id,
}
use onedriver.Open.{success}
use onedriver.Handlers.{dir_entries, listed, read_dir}

-- A new key goes to the end of the map.
insert-append :
    (k : String) (p : Ptr) (m : Children) → lookup k m ≡ none → insert k p m ≡ m ++ (k, p) ∷ []
unfolding insert lookup
insert-append k p [] h = refl
insert-append k p ((j, q) ∷ m) h = ground (arith, insert-append k p m, eq_iff j k)

lookup-append_none :
    (k j : String) (p : Ptr) (m : Children)
    → lookup k m ≡ none
    → str_eq j k ≡ false
    → lookup k (m ++ (j, p) ∷ []) ≡ none
unfolding lookup
lookup-append_none k j p [] h apart = rw apart refl
lookup-append_none k j p ((i, q) ∷ m) h apart = ground (arith, lookup-append_none k j p m)

-- The ids of the rows, which pair an id with its inode.
abbrev pub ids_shown : List (String × Ptr) → List String
ids_shown [] = []
ids_shown ((id, p) ∷ rows) = id ∷ ids_shown rows

module _ (host : Host) (w : World host) where
  -- The names of the inodes in lower case, and what Readdir tells of them.
  abbrev pub keys_shown : List (String × Ptr) → List String
  keys_shown [] = []
  keys_shown ((id, p) ∷ rows) = key host w p ∷ keys_shown rows

  abbrev pub entries_shown : List (String × Ptr) → List (String × ℕ)
  entries_shown [] = []
  entries_shown ((id, p) ∷ rows) = ((w.heap p).name, get_mode (w.heap p)) ∷ entries_shown rows

  -- The inodes are in memory under their ids.
  abbrev pub InMemory : List (String × Ptr) → Type 0
  InMemory [] = Unit
  InMemory ((id, p) ∷ rows) = (lookup id w.metadata ≡ some p) × InMemory rows

  abbrev table : List (String × Ptr) → Children
  table [] = []
  table ((id, p) ∷ rows) = (key host w p, p) ∷ table rows

  -- No name is in the map yet.
  abbrev Unseen : List String → Children → Type 0
  Unseen [] found = Unit
  Unseen (k ∷ ks) found = (lookup k found ≡ none) × Unseen ks found

  Unseen-append :
      (ks : List String) (j : String) (p : Ptr) (found : Children)
      → holds j ks ≡ false
      → Unseen ks found
      → Unseen ks (found ++ (j, p) ∷ [])
  unfolding holds
  Unseen-append [] j p found h unseen = tt
  Unseen-append (k ∷ ks) j p found h unseen = (
    lookup-append_none k j p found unseen.0 (ground (arith, eq_iff j k, eq_iff k j)),
    Unseen-append ks j p found (ground arith) unseen.1,
  )

  collect-table :
      (rows : List (String × Ptr)) (found : Children)
      → InMemory rows
      → Distinct (keys_shown rows)
      → Unseen (keys_shown rows) found
      → collect host (ids_shown rows) found w ≡ done (found ++ table rows) w
  unfolding collect enter
  collect-table [] found here distinct unseen = ap (λ m. done m w) (sym (append-nil found))
  collect-table ((id, p) ∷ rows) found here distinct unseen = rw (get_id_hit host id w here.0) (
      rw (insert-append (key host w p) p found unseen.0) (
        collect-table rows (found ++ (key host w p, p) ∷ []) here.1 distinct.1
          (Unseen-append (keys_shown rows) (key host w p) p found distinct.0 unseen.1)
        ∙ ap (λ m. done m w) (append_assoc found ((key host w p, p) ∷ []) (table rows))))

  abbrev entry : String × Ptr → String × ℕ
  entry (k, p) = ((w.heap p).name, get_mode (w.heap p))

  dir_entries-map :
      (children : Children) → dir_entries host children w ≡ done (List.map entry children) w
  unfolding dir_entries
  dir_entries-map [] = refl
  dir_entries-map ((k, p) ∷ children) = rw (dir_entries-map children) refl

  map-table : (rows : List (String × Ptr)) → List.map entry (table rows) ≡ entries_shown rows
  map-table [] = refl
  map-table ((id, p) ∷ rows) = ap (λ entries. entry (id, p) ∷ entries) (map-table rows)

  Unseen-empty : (ks : List String) → Unseen ks []
  unfolding lookup
  Unseen-empty [] = tt
  Unseen-empty (k ∷ ks) = (refl, Unseen-empty ks)

  Keyed-table : (rows : List (String × Ptr)) → Keyed host w (table rows)
  Keyed-table [] = tt
  Keyed-table ((id, p) ∷ rows) = (refl, Keyed-table rows)

  holds-keys :
      (rows : List (String × Ptr)) (id : String) (q : Ptr)
      → lookup id rows ≡ some q
      → holds (key host w q) (keys_shown rows) ≡ true
  unfolding holds lookup
  holds-keys [] id q h = cc
  holds-keys ((j, p) ∷ rows) id q h = elim (Bool-cases (str_eq j id)) [
    | inl hit ↦ let same : p ≡ q = ground (arith, h) in rw (sym same) (rw eq_refl refl)
    | inr miss ↦ let there = holds-keys rows id q (rw miss at h) in ground (arith, there)
  ]

  lookup-table :
      (rows : List (String × Ptr)) (id : String) (q : Ptr)
      → Distinct (keys_shown rows)
      → lookup id rows ≡ some q
      → lookup (key host w q) (table rows) ≡ some q
  unfolding lookup
  lookup-table [] id q distinct h = cc
  lookup-table ((j, p) ∷ rows) id q distinct h = elim (Bool-cases (str_eq j id)) [
    | inl hit ↦ let same : p ≡ q = ground (arith, h) in rw (sym same) (rw eq_refl refl)
    | inr miss ↦
        let tail : lookup id rows ≡ some q = rw miss at h in
        let there = holds-keys rows id q tail in
        let rest = lookup-table rows id q distinct.1 tail in
        let first = distinct.0 in
        elim (Bool-cases (str_eq (key host w p) (key host w q))) [
          | inl same ↦
              let e = (eq_iff (key host w p) (key host w q)).0 same in
              let no : holds (key host w q) (keys_shown rows) ≡ false = rw e at first in cc
          | inr other ↦ rw other rest
        ]
  ]

  -- In a directory in memory, with children that are all in memory and whose names differ in lower
  -- case, Readdir answers with each child's name and mode, each once, in some order, whatever order
  -- its range takes, and GetChild finds any of them by any spelling of its name, both without a
  -- request.
  pub read_dir_shows :
      (p : Ptr) (rows : List (String × Ptr)) (id spelled : String) (q : Ptr) (auth : AuthRef)
      (order : Children → Children)
      → ((children : Children) → Perm (order children) children)
      → (w.heap p).has_cache ≡ true
      → lookup (w.heap p).id w.metadata ≡ some p
      → is_dir (w.heap p) ≡ true
      → (w.heap p).children ≡ some (ids_shown rows)
      → InMemory rows
      → Distinct (keys_shown rows)
      → lookup id rows ≡ some q
      → to_lower host spelled ≡ to_lower host (w.heap q).name
      → (entries : List (String × ℕ)) × (read_dir host p order w ≡ done (entries, success) w)
        × Perm entries (entries_shown rows)
        × (get_child host (w.heap p).id spelled auth w ≡ done (ok q) w)
  unfolding read_dir listed get_child get_children_id list_found children_of find_among
  read_dir_shows p rows id spelled q auth order mixed cached found directory children here distinct
        there same =
      let collected = collect-table rows [] here distinct (Unseen-empty (keys_shown rows)) in
      let hit = lookup-table rows id q distinct there in
      (
        List.map entry (order (table rows)),
        rw (cached, get_id_hit host (w.heap p).id w found)
            (rw directory
              (rw children (rw collected (rw (dir_entries-map (order (table rows))) refl)))),
        subst (Perm (List.map entry (order (table rows)))) (map-table rows)
            (Perm.map entry (mixed (table rows))),
        rw (get_id_hit host (w.heap p).id w found) (
            rw directory (
              rw children (
                rw collected (
                  find_child-lookup host w spelled (table rows) (Keyed-table rows)
                  ∙ rw same (rw hit refl))))),
      )
