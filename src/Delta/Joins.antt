-- ===== src/Delta/Joins.antt =====
-- Deltas of new items one after the other: what is new stays new, and a delta that is skipped.
use onedriver.Prelude.{
  String, false, none, some, List, [], ◌∷◌, ◌++◌, ◌≡◌, ◌≢◌, refl, sym, ◌∙◌, arith, str_eq, eq_iff,
  eq_refl, lookup, lookup-insert,
}
use onedriver.Host.{Host}
use onedriver.World.{Ptr, World, done}
use onedriver.Fields.{parent_id}
use onedriver.Cache.{holds, ids_of}
use onedriver.Cache.Lookup.{get_id_miss}
use onedriver.Delta.{apply_delta, apply_below}
use onedriver.Delta.Entered.{IsNew, Entered, apply_delta_enters}

module _ (host : Host) where
  -- What the cache maps another id to.
  pub lookup-Entered :
      {delta q : Ptr} {w w' : World host}
      → Entered delta q w w'
      → (id : String) → (w.heap delta).id ≢ id
      → lookup id w'.metadata ≡ lookup id w.metadata
  lookup-Entered {delta} {q} {w} {w'} step id apart =
      rw step.metadata (rw lookup-insert (ground (arith, eq_iff (w.heap delta).id id)))

  -- Another new item stays new.
  pub IsNew-Entered :
      {delta q p : Ptr} {parent : String} {w w' : World host}
      → Entered delta q w w'
      → p ≢ delta
      → p ≢ q
      → (w.heap p).id ≢ (w.heap delta).id
      → IsNew p parent w
      → IsNew p parent w'
  IsNew-Entered {delta} {q} {p} {parent} {w} {w'} step d e other item =
      let same = step.elsewhere p d e in
      record {
        reference = item.reference;
        referenced = rw same item.referenced;
        place = rw same item.place;
        alive = rw same item.alive;
        unknown = rw same (lookup-Entered step (w.heap p).id (λ h. other (sym h)) ∙ item.unknown);
        unstored = rw same (rw step.bucket item.unstored);
      }

  -- A delta of an item whose parent is neither in memory nor in the database is skipped.
  pub apply_delta_skips :
      (delta : Ptr) (parent : String) (w : World host)
      → parent_id (w.heap delta) ≡ parent
      → lookup parent w.metadata ≡ none
      → host.bucket_get w.metadata_bucket parent ≡ none
      → apply_delta host delta w ≡ done none w
  unfolding apply_delta apply_below
  apply_delta_skips delta parent w place unknown unstored =
      rw place (rw (get_id_miss host parent w unknown unstored) refl)

  -- An item joins a folder that is in memory in `u` and does not list it.
  pub joins_folder :
      (delta folder : Ptr) (id : String) (u : World host)
      → IsNew delta id u
      → lookup id u.metadata ≡ some folder
      → str_eq id "" ≡ false
      → delta ≢ folder
      → (u.heap delta).id ≢ id
      → (ids : List String) → ids_of (u.heap folder).children ≡ ids
      → holds (u.heap delta).id ids ≡ false
      → (v : World host) × (apply_delta host delta u ≡ done none v)
        × Entered delta folder u v
        × ((v.heap folder).children ≡ some (ids ++ (u.heap delta).id ∷ []))
        × (lookup id v.metadata ≡ some folder)
        × (lookup (u.heap delta).id v.metadata ≡ some delta)
  joins_folder delta folder id u item found named apart other ids listing new =
      let (v, run, step) = apply_delta_enters host delta folder id u item found named apart in
      (
        v,
        run,
        step,
        rw (step.listing (rw listing new)) (rw listing refl),
        lookup-Entered step id other ∙ found,
        rw step.metadata (rw lookup-insert (rw eq_refl)),
      )
