-- ===== src/Delta/Entries.antt =====
-- Items that the server reports as new or as deleted.
use onedriver.Prelude.{
  String, true, false, none, some, ◌≡◌, ◌≢◌, refl, str_eq, lookup, ==_self, ==_ne, subst,
}
use onedriver.Item.{DriveItemParent}
use onedriver.Host.{Host}
use onedriver.World.{Ptr, World, done, store}
use onedriver.Fields.{parent_id}
use onedriver.Cache.{get_id, holds, ids_of, insert_id, set_parent, insert_child}
use onedriver.Cache.Lookup.{get_id_hit, get_id_miss}
use onedriver.Cache.Members.{Distinct}
use onedriver.Cache.Insert.{insert_id-get_id}
use onedriver.Cache.Delete.{delete_id_removes}
use onedriver.Delta.{apply_known, apply_below, apply_delta}

module _ (host : Host) (delta q : Ptr) (w : World host)
    (parent : lookup (parent_id (w.heap delta)) w.metadata ≡ some q) where
  -- A deletion on the server of an item that is in memory, as are its parent there and here, whose
  -- children have no repetitions: the item leaves the cache and the children of its parent, which
  -- stay without repetitions. This is so of a folder that is not empty, too.
  pub apply_delta_deletes :
      (p r : Ptr) {state : String}
      → (w.heap delta).deleted ≡ some state
      → lookup (w.heap delta).id w.metadata ≡ some p
      → lookup (parent_id (w.heap p)) w.metadata ≡ some r
      → Distinct (ids_of (w.heap r).children)
      → (w' : World host) × (apply_delta host delta w ≡ done none w')
        × (lookup (w.heap delta).id w'.metadata ≡ none)
        × (holds (w.heap delta).id (ids_of (w'.heap r).children) ≡ false)
        × Distinct (ids_of (w'.heap r).children)
  unfolding apply_delta apply_below
  apply_delta_deletes p r gone found above distinct =
      let (w', run, absent, unlisted, distinct') =
        delete_id_removes host (w.heap delta).id p r w found above distinct in
      (
        w',
        simp (get_id_hit host (parent_id (w.heap delta)) w parent, gone, run),
        absent,
        unlisted,
        distinct',
      )

  -- The delta once its parent's id was set, which is the one that it has.
  abbrev pub with_parent : DriveItemParent → World host
  with_parent reference = record w {
    heap = store w.heap delta (record (w.heap delta) {
      item = record (w.heap delta).item {
        parent = some (record reference { id = parent_id (w.heap delta) });
      };
    });
  }

  set_parent_lem :
      (reference : DriveItemParent)
      → (w.heap delta).parent ≡ some reference
      → set_parent host delta (parent_id (w.heap delta)) w ≡ done tt (with_parent reference)
  unfolding set_parent
  set_parent_lem reference h = simp h

  pub creates_runs :
      (reference : DriveItemParent) (w' : World host)
      → (w.heap delta).parent ≡ some reference
      → (w.heap delta).deleted ≡ none
      → lookup (w.heap delta).id w.metadata ≡ none
      → host.bucket_get w.metadata_bucket (w.heap delta).id ≡ none
      → insert_id host (w.heap delta).id delta (with_parent reference) ≡ done tt w'
      → apply_delta host delta w ≡ done none w'
  unfolding apply_delta apply_below apply_known insert_child
  creates_runs reference w' h alive new unstored run =
      let id_kept : ((with_parent reference).heap delta).id ≡ (w.heap delta).id = rw ==_self in
      rw (get_id_hit host (parent_id (w.heap delta)) w parent) (
        rw alive (
          rw (get_id_miss host (w.heap delta).id w new unstored)
            (rw (set_parent_lem reference h) (rw id_kept (rw run refl)))))

  -- An item that is new on the server, with a reference to its parent, and neither in memory nor in
  -- the database, below a directory that is in memory under an id that is not empty, is another
  -- inode and whose children have no repetitions: the cache has the item from now on, and it is
  -- among the children of the directory, which stay without repetitions.
  pub apply_delta_creates :
      (reference : DriveItemParent)
      → (w.heap delta).parent ≡ some reference
      → (w.heap delta).deleted ≡ none
      → lookup (w.heap delta).id w.metadata ≡ none
      → host.bucket_get w.metadata_bucket (w.heap delta).id ≡ none
      → str_eq (parent_id (w.heap delta)) "" ≡ false
      → delta ≢ q
      → Distinct (ids_of (w.heap q).children)
      → (w' : World host) × (apply_delta host delta w ≡ done none w')
        × (get_id host (w.heap delta).id w' ≡ done (some delta) w')
        × (holds (w.heap delta).id (ids_of (w'.heap q).children) ≡ true)
        × Distinct (ids_of (w'.heap q).children)
  apply_delta_creates reference h alive new unstored named apart distinct =
      let v = with_parent reference in
      let id = (w.heap delta).id in
      let own : parent_id (w.heap delta) ≢ id =
        λ e. (let no = subst (λ i. lookup i w.metadata ≡ some q) e parent in cc) in
      let same : parent_id (v.heap delta) ≡ parent_id (w.heap delta) = rw ==_self in
      let id_kept : (v.heap delta).id ≡ id = rw ==_self in
      let (w', run, there, listed, distinct') =
        insert_id-get_id host id delta q v (rw same named) (rw same own) (rw same parent) apart
          id_kept (rw (==_ne delta q apart) distinct) in
      (w', creates_runs reference w' h alive new unstored run, there, listed, distinct')
