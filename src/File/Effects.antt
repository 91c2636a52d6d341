-- ===== src/File/Effects.antt =====
-- The effects of the handlers for files.
use onedriver.Prelude.{ℕ, Option, none, some}
use onedriver.Item.{Bytes}
use onedriver.Host.{Host}
use onedriver.World.{Slice, Ptr, World}
use onedriver.World.Effects.{Effects, Respects, effect_rules}
use onedriver.Cache.Effects.Moves.{insert_content-Respects}
use onedriver.Remote.Effects.{get_drive_type-Respects}
use onedriver.Upload.Effects.{queue_upload-Respects}
use onedriver.Open.Effects.{open_file-Respects}
use onedriver.File.{
  SetAttrIn, ensure_open, read, write, make_attr, get_attr, set_size, set_attr, sync_changes, fsync,
  store_content, flush,
}

module _ {host : Host} {R : World host → World host → Type 0} (e : Effects host R) where
  ensure_open-Respects : (p : Ptr) → Respects R (ensure_open host p)
  unfolding ensure_open
  ensure_open-Respects p = search (effect_rules, e, open_file-Respects)

  pub read-Respects : (p : Ptr) (count off : ℕ) → Respects R (read host p count off)
  unfolding read
  read-Respects p count off = search (effect_rules, e, ensure_open-Respects) depth 9

  pub write-Respects :
      (p : Ptr) (bytes : Bytes) (offset : ℕ) → Respects R (write host p bytes offset)
  unfolding write
  write-Respects p bytes offset = search (effect_rules, e, ensure_open-Respects) depth 12

  pub make_attr-Respects : (p : Ptr) → Respects R (make_attr host p)
  unfolding make_attr
  make_attr-Respects p = search (effect_rules, e)

  pub get_attr-Respects : (p : Ptr) → Respects R (get_attr host p)
  unfolding get_attr
  get_attr-Respects p = search (effect_rules, e, make_attr-Respects)

  set_size-Respects : (size : Option ℕ) (p : Ptr) → Respects R (set_size host size p)
  unfolding set_size
  set_size-Respects none p = search (effect_rules, e)
  set_size-Respects (some size) p = search (effect_rules, e) depth 9

  pub set_attr-Respects : (p : Ptr) (new : SetAttrIn) → Respects R (set_attr host p new)
  unfolding set_attr
  set_attr-Respects p new = search (effect_rules, e, set_size-Respects, make_attr-Respects) depth 12

  sync_changes-Respects : (p : Ptr) → Respects R (sync_changes host p)
  unfolding sync_changes
  sync_changes-Respects p =
      search (effect_rules, e, get_drive_type-Respects, queue_upload-Respects) depth 14

  pub fsync-Respects : (p : Ptr) → Respects R (fsync host p)
  unfolding fsync
  fsync-Respects p = search (effect_rules, e, sync_changes-Respects)

  store_content-Respects :
      (p : Ptr) (content : Option Slice) → Respects R (store_content host p content)
  unfolding store_content
  store_content-Respects p none = search (effect_rules, e)
  store_content-Respects p (some content) =
      search (effect_rules, e, insert_content-Respects) depth 12

  pub flush-Respects : (p : Ptr) → Respects R (flush host p)
  unfolding flush
  flush-Respects p = search (effect_rules, e, fsync-Respects, store_content-Respects) depth 9
