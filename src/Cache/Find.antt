-- ===== src/Cache/Find.antt =====
-- GetChild in a directory whose children are all in memory: the scan of the children by name is a
-- lookup in the map that GetChildrenID makes.
use onedriver.Prelude.{
  String, true, Option, none, some, List, [], ◌∷◌, ◌≡◌, refl, ◌∙◌, ap, inl, inr, ◌⊎◌, str_eq,
  eq_iff, eq_refl, lookup, insert, lookup-insert, Bool-cases, subst,
}
use onedriver.Item.{Result, ok, fail}
use onedriver.Host.{Host}
use onedriver.World.{Ptr, World, done}
use onedriver.Fields.{is_dir}
use onedriver.Graph.{AuthRef}
use onedriver.Cache.{holds}
use onedriver.Cache.Lookup.{get_id_hit}
use onedriver.Cache.Children.{
  Children, to_lower, enter, collect, children_of, list_found, get_children_id, find_child,
  find_among, get_child,
}

module _ (host : Host) (w : World host) where
  -- The key of an inode among the children.
  abbrev pub key : Ptr → String
  key p = to_lower host (w.heap p).name

  -- Each entry stands under the name of its inode.
  abbrev pub Keyed : Children → Type 0
  Keyed [] = Unit
  Keyed ((k, p) ∷ es) = (key p ≡ k) × Keyed es

  -- What a map answers as GetChild does.
  abbrev pub answer : Option Ptr → Result Ptr
  answer none = fail "Child does not exist"
  answer (some p) = ok p

  -- The loop of GetChild is a lookup of the name in lower case.
  pub find_child-lookup :
      (name : String) (found : Children)
      → Keyed found
      → find_child host name found w ≡ done (answer (lookup (to_lower host name) found)) w
  unfolding find_child lookup
  find_child-lookup name [] keyed = refl
  find_child-lookup name ((k, p) ∷ es) keyed =
      rw keyed.0 (elim (Bool-cases (str_eq k (to_lower host name))) [
        | inl hit ↦ rw hit refl
        | inr miss ↦ rw miss (find_child-lookup name es keyed.1)
      ])

  pub insert-Keyed : (p : Ptr) (found : Children) → Keyed found → Keyed (insert (key p) p found)
  unfolding insert
  insert-Keyed p [] keyed = (refl, tt)
  insert-Keyed p ((k, q) ∷ es) keyed = elim (Bool-cases (str_eq k (key p))) [
    | inl hit ↦ rw hit (refl, keyed.1)
    | inr miss ↦ rw miss (keyed.0, insert-Keyed p es keyed.1)
  ]

  -- All of these items are in memory, and `n` is the only one of the name.
  abbrev pub Listed : String → Ptr → List String → Type 0
  Listed name n [] = Unit
  Listed name n (id ∷ ids) =
      ((p : Ptr) × (lookup id w.metadata ≡ some p) × (key p ≡ name → p ≡ n)) × Listed name n ids

  module _ (name : String) (n : Ptr) (named : key n ≡ name) where
    -- The map has `n` under its name, or will have.
    abbrev Expected : List String → Children → Type 0
    Expected ids found =
        (lookup name found ≡ some n)
        ⊎ ((id : String) × (holds id ids ≡ true) × (lookup id w.metadata ≡ some n))

    lookup-enter :
        (p : Ptr) (found : Children)
        → (key p ≡ name → p ≡ n)
        → lookup name found ≡ some n
        → lookup name (insert (key p) p found) ≡ some n
    lookup-enter p found only h = rw lookup-insert (elim (Bool-cases (str_eq (key p) name)) [
      | inl hit ↦ rw hit (ap some (only ((eq_iff (key p) name).0 hit)))
      | inr miss ↦ rw miss h
    ])

    enters :
        (id : String) (ids : List String) (p : Ptr) (found : Children)
        → lookup id w.metadata ≡ some p
        → (key p ≡ name → p ≡ n)
        → Expected (id ∷ ids) found
        → Expected ids (insert (key p) p found)
    unfolding holds
    enters id ids p found here only (inl h) = inl (lookup-enter p found only h)
    enters id ids p found here only (inr (k, listed, there)) = elim (Bool-cases (str_eq id k)) [
      | inl hit ↦
          let same_id : id ≡ k = (eq_iff id k).0 hit in
          let same : p ≡ n =
            (let at_k = subst (λ i. lookup i w.metadata ≡ some p) same_id here in cc) in
          inl (rw lookup-insert (rw same (rw named (rw eq_refl refl))))
      | inr miss ↦ inr (k, rw miss at listed, there)
    ]

    collect_runs :
        (ids : List String) (found : Children)
        → Listed name n ids
        → Keyed found
        → Expected ids found
        → (found' : Children) × (collect host ids found w ≡ done found' w)
          × Keyed found'
          × (lookup name found' ≡ some n)
    unfolding collect enter
    collect_runs [] found listed keyed (inl h) = (found, refl, keyed, h)
    collect_runs [] found listed keyed (inr (id, h, there)) = unfold holds in cc
    collect_runs (id ∷ ids) found listed keyed expected =
        let (p, here, only) = listed.0 in
        let (found', run, keyed', h) =
          collect_runs ids (insert (key p) p found) listed.1 (insert-Keyed p found keyed)
            (enters id ids p found here only expected) in
        (found', rw (get_id_hit host id w here) run, keyed', h)

    -- GetChild by any spelling of the name finds `n` in a directory in memory that lists it.
    pub get_child_finds :
        (spelled parent id : String) (p : Ptr) (ids : List String) (auth : AuthRef)
        → to_lower host spelled ≡ name
        → lookup parent w.metadata ≡ some p
        → is_dir (w.heap p) ≡ true
        → (w.heap p).children ≡ some ids
        → Listed name n ids
        → holds id ids ≡ true
        → lookup id w.metadata ≡ some n
        → get_child host parent spelled auth w ≡ done (ok n) w
    unfolding get_child get_children_id list_found children_of find_among
    get_child_finds spelled parent id p ids auth same above directory children listed h there =
        let (found, run, keyed, hit) = collect_runs ids [] listed tt (inr (id, h, there)) in
        rw (get_id_hit host parent w above) (
          rw directory
            (rw children (rw run (find_child-lookup spelled found keyed ∙ rw same (rw hit refl)))))
