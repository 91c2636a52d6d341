-- ===== src/Cache/Delete.antt =====
-- DeleteID: the item leaves the cache and its parent's children.
use onedriver.Prelude.{
  arith, String, false, none, some, ◌≡◌, inl, inr, if◌then◌else◌, eq_refl, lookup, delete,
  lookup-delete, ◌==◌, ==_self, Bool-cases,
}
use onedriver.Item.{Bytes, ok, SerializeableInode}
use onedriver.Host.{Host}
use onedriver.World.{Ptr, World, done, panic}
use onedriver.Fields.{parent_id, is_dir}
use onedriver.Cache.{get_id, holds, ids_of, drop_child, leave_parent, delete_id, delete_metadata}
use onedriver.World.Mode.{Ends, Ends-bind}
use onedriver.Cache.Lookup.{get_id_hit, get_id_miss, get_id_stored, after_load}
use onedriver.Cache.Members.{Distinct, holds-remove_first_self, remove_first-Distinct}

module _ (host : Host) (id : String) (p q : Ptr) (w : World host) where
  -- The world after DeleteID of `p` below `q`.
  unfoldable pub after_delete : World host
  after_delete = record w {
    heap = λ r. if q == r then drop_child id (is_dir (w.heap p)) (w.heap q) else w.heap r;
    metadata = delete id w.metadata;
  }

  pub delete_id_runs :
      lookup id w.metadata ≡ some p
      → lookup (parent_id (w.heap p)) w.metadata ≡ some q
      → delete_id host id w ≡ done tt after_delete
  unfolding delete_id leave_parent after_delete
  delete_id_runs hp hq = simp (get_id_hit host id w hp, get_id_hit host (parent_id (w.heap p)) w hq)

  -- DeleteID of an item that is in memory, as is its parent, whose children have no repetitions:
  -- the id is no longer in memory, its parent no longer has it among its children, which stay
  -- without repetitions.
  pub delete_id_removes :
      lookup id w.metadata ≡ some p
      → lookup (parent_id (w.heap p)) w.metadata ≡ some q
      → Distinct (ids_of (w.heap q).children)
      → (w' : World host) × (delete_id host id w ≡ done tt w')
        × (lookup id w'.metadata ≡ none)
        × (holds id (ids_of (w'.heap q).children) ≡ false)
        × Distinct (ids_of (w'.heap q).children)
  unfolding after_delete drop_child
  delete_id_removes hp hq distinct =
      let ids = ids_of (w.heap q).children in
      (
        after_delete,
        delete_id_runs hp hq,
        rw lookup-delete (rw eq_refl),
        rw ==_self (elim (Bool-cases (holds id ids)) [
          | inl there ↦ rw there (holds-remove_first_self id ids distinct)
          | inr gone ↦ rw gone gone
        ]),
        rw ==_self (elim (Bool-cases (holds id ids)) [
          | inl there ↦ rw there (remove_first-Distinct id ids distinct)
          | inr gone ↦ rw gone distinct
        ]),
      )

  -- What the database holds of a deleted item comes back, also online: after DeleteID of an item
  -- that was in memory, as was its parent, GetID makes a new inode of what the database has, where
  -- that can be read, and puts it in the cache.
  pub get_id-delete_id :
      {bytes : Bytes} {s : SerializeableInode}
      → lookup id w.metadata ≡ some p
      → lookup (parent_id (w.heap p)) w.metadata ≡ some q
      → host.bucket_get w.metadata_bucket id ≡ some bytes
      → host.unmarshal_inode bytes ≡ ok s
      → (w' : World host) × (delete_id host id w ≡ done tt w')
        × (get_id host id w' ≡ done (some w'.next) (after_load host id s w'))
  unfolding after_delete
  get_id-delete_id hp hq stored parsed = (
    after_delete,
    delete_id_runs hp hq,
    get_id_stored host id after_delete (rw lookup-delete (rw eq_refl)) stored parsed,
  )

  -- DeleteID of an item in memory whose parent neither the memory nor the database has panics.
  pub delete_id_orphan :
      lookup id w.metadata ≡ some p
      → lookup (parent_id (w.heap p)) w.metadata ≡ none
      → host.bucket_get w.metadata_bucket (parent_id (w.heap p)) ≡ none
      → delete_id host id w ≡ panic
  unfolding delete_id leave_parent
  delete_id_orphan hp missing unstored =
      simp (get_id_hit host id w hp, get_id_miss host (parent_id (w.heap p)) w missing unstored)

-- What is not in memory.
abbrev pub Absent : (host : Host) → String → Unit {0} → World host → Type 0
Absent host id u w = lookup id w.metadata ≡ none

-- Whatever it finds, a DeleteID that ends leaves nothing under the id in memory.
pub delete_id-Absent : (host : Host) (id : String) → Ends (Absent host id) (delete_id host id)
unfolding delete_id
delete_id-Absent host id = Ends-bind (Absent host id) (get_id host id) _ (λ found.
    Ends-bind (Absent host id) (leave_parent host id found) (λ _. delete_metadata host id)
      (λ _. record { at = λ w. ground (arith, lookup-delete id id w.metadata, eq_refl id) }))
