-- ===== src/Remote/Effects.antt =====
-- The effects of obtaining an ID and the drive's type.
use onedriver.Prelude.{String}
use onedriver.Item.{Bytes, Result, ok, fail, Drive, DriveItem}
use onedriver.Host.{Host}
use onedriver.World.{Ptr, World}
use onedriver.World.Effects.{Effects, Respects, effect_rules}
use onedriver.Fields.Effects.{new_inode-Respects}
use onedriver.Graph.Effects.{request-Respects, get_drive-Respects, get_item-Respects}
use onedriver.Cache.Effects.Moves.{move_id-Respects}
use onedriver.Remote.{
  keep_drive_type, get_drive_type, take_id, take_latest, name_exists, read_id, uploaded, remote_id,
}

module _ {host : Host} {R : World host → World host → Type 0} (e : Effects host R) where
  keep_drive_type-Respects : (drive : Result Drive) → Respects R (keep_drive_type host drive)
  unfolding keep_drive_type
  keep_drive_type-Respects (ok drive) = record { at = λ w. e.drive_type w _ }
  keep_drive_type-Respects (fail err) = search (effect_rules, e)

  pub get_drive_type-Respects : Respects R (get_drive_type host)
  unfolding get_drive_type
  get_drive_type-Respects =
      search (effect_rules, e, get_drive-Respects, keep_drive_type-Respects) depth 9

  take_id-Respects : (p : Ptr) (original new : String) → Respects R (take_id host p original new)
  unfolding take_id
  take_id-Respects p original new = search (effect_rules, e, move_id-Respects) depth 9

  take_latest-Respects :
      (p : Ptr) (original err : String) (latest : Result Ptr)
      → Respects R (take_latest host p original err latest)
  unfolding take_latest
  take_latest-Respects p original err (fail other) = search (effect_rules, e)
  take_latest-Respects p original err (ok latest) = search (effect_rules, e, take_id-Respects)

  name_exists-Respects :
      (p : Ptr) (original err : String) → Respects R (name_exists host p original err)
  unfolding name_exists
  name_exists-Respects p original err =
      search (effect_rules, e, get_item-Respects, take_latest-Respects) depth 9

  read_id-Respects :
      (p : Ptr) (original : String) (unsafe : Ptr) (parsed : Result DriveItem)
      → Respects R (read_id host p original unsafe parsed)
  unfolding read_id
  read_id-Respects p original unsafe (fail err) = search (effect_rules, e)
  read_id-Respects p original unsafe (ok item) = search (effect_rules, e, take_id-Respects)

  uploaded-Respects :
      (p : Ptr) (original : String) (body : Result Bytes)
      → Respects R (uploaded host p original body)
  unfolding uploaded
  uploaded-Respects p original (fail err) = search (effect_rules, e, name_exists-Respects)
  uploaded-Respects p original (ok body) =
      search (effect_rules, e, new_inode-Respects, read_id-Respects) depth 9

  pub remote_id-Respects : (p : Ptr) → Respects R (remote_id host p)
  unfolding remote_id
  remote_id-Respects p = search (effect_rules, e, request-Respects, uploaded-Respects) depth 9
