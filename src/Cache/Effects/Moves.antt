-- ===== src/Cache/Effects/Moves.antt =====
-- The effects on the contents in the database, and of a new ID.
use onedriver.Prelude.{String, Option, none, some, inl, inr, Option-cases}
use onedriver.Item.{Bytes}
use onedriver.Cache.Stored.{Result-cases}
use onedriver.Host.{Host}
use onedriver.World.{Ptr, World}
use onedriver.World.Effects.{Effects, Respects, effect_rules}
use onedriver.Cache.Effects.{get_id-Respects, insert_id-Respects, delete_id-Respects}
use onedriver.Cache.Content.{get_content, insert_content, delete_content, move_content}
use onedriver.Cache.Move.{move_inode, move_renamed, move_found, move_id}

module _ {host : Host} {R : World host → World host → Type 0} (e : Effects host R) where
  pub get_content-Respects : (id : String) → Respects R (get_content host id)
  unfolding get_content
  get_content-Respects id = record { at = λ w. e.stays w }

  pub insert_content-Respects :
      (id : String) (content : Bytes) → Respects R (insert_content host id content)
  unfolding insert_content
  insert_content-Respects id content = record {
    at = λ w. elim (Result-cases (host.bucket_put w.content_bucket id content)) [
      | inl (b, put) ↦ rw (put, insert_content) (e.content w b)
      | inr (err, refused) ↦ rw (refused, insert_content) (e.stays w)
    ];
  }

  pub delete_content-Respects : (id : String) → Respects R (delete_content host id)
  unfolding delete_content
  delete_content-Respects id = record { at = λ w. e.content w _ }

  pub move_content-Respects : (old new : String) → Respects R (move_content host old new)
  unfolding move_content
  move_content-Respects old new = record {
    at = λ w. elim (Option-cases (host.bucket_get w.content_bucket old)) [
      | inl missing ↦ rw (missing, move_content) (e.stays w)
      | inr (content, found) ↦ rw (found, move_content) (e.content w _)
    ];
  }

  move_inode-Respects : (old new : String) (p : Ptr) → Respects R (move_inode host old new p)
  unfolding move_inode
  move_inode-Respects old new p =
      search
        (
          effect_rules, e, get_id-Respects, delete_id-Respects, insert_id-Respects,
          move_content-Respects,
        )
        depth 12

  move_renamed-Respects :
      (old new : String) (found : Option Ptr) → Respects R (move_renamed host old new found)
  unfolding move_renamed
  move_renamed-Respects old new none = search (effect_rules, e)
  move_renamed-Respects old new (some p) = move_inode-Respects old new p

  move_found-Respects :
      (old new : String) (found : Option Ptr) → Respects R (move_found host old new found)
  unfolding move_found
  move_found-Respects old new (some p) = move_inode-Respects old new p
  move_found-Respects old new none =
      search (effect_rules, e, get_id-Respects, move_renamed-Respects)

  pub move_id-Respects : (old new : String) → Respects R (move_id host old new)
  unfolding move_id
  move_id-Respects old new = search (effect_rules, e, get_id-Respects, move_found-Respects)
