-- ===== src/Cache/Missing.antt =====
-- GetChild in a directory whose children are all in memory and have other names.
use onedriver.Prelude.{
  String, true, none, some, List, [], ◌∷◌, ◌≡◌, ◌≢◌, refl, ◌∙◌, arith, eq_iff, lookup, insert,
  lookup-insert,
}
use onedriver.Item.{fail}
use onedriver.Host.{Host}
use onedriver.World.{Ptr, World, done}
use onedriver.Fields.{is_dir}
use onedriver.Graph.{AuthRef}
use onedriver.Cache.Lookup.{get_id_hit}
use onedriver.Cache.Find.{key, Keyed, find_child-lookup, insert-Keyed}
use onedriver.Cache.Children.{
  Children, to_lower, enter, collect, children_of, list_found, get_children_id, find_among,
  get_child,
}

module _ (host : Host) where
  -- All of these items are in memory, and none has the name.
  abbrev pub Missing : String → List String → World host → Type 0
  Missing name [] w = Unit
  Missing name (id ∷ ids) w =
      ((p : Ptr) × (lookup id w.metadata ≡ some p) × (key host w p ≢ name)) × Missing name ids w

  module _ (w : World host) (name : String) where
    collect_misses :
        (ids : List String) (found : Children)
        → Missing name ids w
        → Keyed host w found
        → lookup name found ≡ none
        → (found' : Children) × (collect host ids found w ≡ done found' w)
          × Keyed host w found'
          × (lookup name found' ≡ none)
    unfolding collect enter
    collect_misses [] found missing keyed h = (found, refl, keyed, h)
    collect_misses (id ∷ ids) found missing keyed h =
        let (p, here, other) = missing.0 in
        let next = insert (key host w p) p found in
        let none_yet : lookup name next ≡ none =
          rw lookup-insert (ground (arith, eq_iff (key host w p) name)) in
        let (found', run, keyed', h') =
          collect_misses ids next missing.1 (insert-Keyed host w p found keyed) none_yet in
        (found', rw (get_id_hit host id w here) run, keyed', h')

    -- GetChild by any spelling of the name fails.
    pub get_child_misses :
        (spelled parent : String) (p : Ptr) (ids : List String) (auth : AuthRef)
        → to_lower host spelled ≡ name
        → lookup parent w.metadata ≡ some p
        → is_dir (w.heap p) ≡ true
        → (w.heap p).children ≡ some ids
        → Missing name ids w
        → get_child host parent spelled auth w ≡ done (fail "Child does not exist") w
    unfolding get_child get_children_id list_found children_of find_among lookup
    get_child_misses spelled parent p ids auth same above directory children missing =
        let (found, run, keyed, h) = collect_misses ids [] missing tt refl in
        rw (get_id_hit host parent w above) (
          rw directory (
            rw children
              (rw run (find_child-lookup host w spelled found keyed ∙ rw same (rw h refl)))))
