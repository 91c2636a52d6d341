-- ===== src/Cache/Effects.antt =====
-- The effects of the cache, by id.
pub mod Children
pub mod Moves
pub mod Paths
use onedriver.Prelude.{String, Option, none, some, inl, inr, lookup, Option-cases, if◌then◌else◌}
use onedriver.Item.{Bytes, Result, ok, fail, SerializeableInode}
use onedriver.Host.{Host}
use onedriver.World.{Ptr}
use onedriver.World.{World, M}
use onedriver.World.Effects.{Effects, Respects, effect_rules}
use onedriver.Cache.{
  store_metadata, delete_metadata, keep_stored, load_stored, get_id, join_parent, insert_id,
  set_parent, insert_child, leave_parent, delete_id,
}

module _ {host : Host} {R : World host → World host → Type 0} (e : Effects host R) where
  pub store_metadata-Respects : (id : String) (p : Ptr) → Respects R (store_metadata host id p)
  store_metadata-Respects id p = record { at = λ w. e.metadata w _ }

  delete_metadata-Respects : (id : String) → Respects R (delete_metadata host id)
  delete_metadata-Respects id = record { at = λ w. e.metadata w _ }

  keep_stored-Respects :
      (id : String) (parsed : Result SerializeableInode) → Respects R (keep_stored host id parsed)
  unfolding keep_stored
  keep_stored-Respects id (fail err) = search (effect_rules, e)
  keep_stored-Respects id (ok s) = search (effect_rules, e, store_metadata-Respects)

  load_stored-Respects :
      (id : String) (stored : Option Bytes) → Respects R (load_stored host id stored)
  unfolding load_stored
  load_stored-Respects id none = search (effect_rules, e)
  load_stored-Respects id (some bytes) = keep_stored-Respects id _

  pub get_id-Respects : (id : String) → Respects R (get_id host id)
  unfolding get_id
  get_id-Respects id = record {
    at = λ w. elim (Option-cases (lookup id w.metadata)) [
      | inr (p, hit) ↦ rw (hit, get_id) (e.stays w)
      | inl miss ↦ rw (miss, get_id) ((load_stored-Respects id _).at w)
    ];
  }

  join_parent-Respects :
      (id : String) (p : Ptr) (found : Option Ptr) → Respects R (join_parent host id p found)
  unfolding join_parent
  join_parent-Respects id p none = search (effect_rules, e)
  join_parent-Respects id p (some q) = search (effect_rules, e)

  pub insert_id-Respects : (id : String) (p : Ptr) → Respects R (insert_id host id p)
  unfolding insert_id
  insert_id-Respects id p =
      search (effect_rules, e, store_metadata-Respects, get_id-Respects, join_parent-Respects) depth
        9

  pub set_parent-Respects : (p : Ptr) (id : String) → Respects R (set_parent host p id)
  unfolding set_parent
  set_parent-Respects p id = search (effect_rules, e)

  pub insert_child-Respects : (id : String) (p : Ptr) → Respects R (insert_child host id p)
  unfolding insert_child
  insert_child-Respects id p = search (effect_rules, e, set_parent-Respects, insert_id-Respects)

  leave_parent-Respects :
      (id : String) (found : Option Ptr) → Respects R (leave_parent host id found)
  unfolding leave_parent
  leave_parent-Respects id none = search (effect_rules, e)
  leave_parent-Respects id (some p) = search (effect_rules, e, get_id-Respects)

  pub delete_id-Respects : (id : String) → Respects R (delete_id host id)
  unfolding delete_id
  delete_id-Respects id =
      search (effect_rules, e, get_id-Respects, leave_parent-Respects, delete_metadata-Respects)
