-- ===== src/Open/Effects.antt =====
-- The effects of opening a file.
use onedriver.Prelude.{ℕ, String, Option, none, some}
use onedriver.Item.{Bytes, Result, ok, fail}
use onedriver.Host.{Host}
use onedriver.World.{Ptr, World}
use onedriver.World.Effects.{Effects, Respects, effect_rules}
use onedriver.Graph.Effects.{request-Respects}
use onedriver.Cache.Effects.Moves.{get_content-Respects}
use onedriver.Remote.{IdResult}
use onedriver.Remote.Effects.{remote_id-Respects, get_drive_type-Respects}
use onedriver.Open.{downloaded, download, open_remote, open_cached, open_closed, open_file}

module _ {host : Host} {R : World host → World host → Type 0} (e : Effects host R) where
  downloaded-Respects : (p : Ptr) (body : Result Bytes) → Respects R (downloaded host p body)
  unfolding downloaded
  downloaded-Respects p (fail err) = search (effect_rules, e)
  downloaded-Respects p (ok body) = search (effect_rules, e)

  download-Respects : (p : Ptr) (id : IdResult) → Respects R (download host p id)
  unfolding download
  download-Respects p (id, some err) = search (effect_rules, e)
  download-Respects p (id, none) = search (effect_rules, e, request-Respects, downloaded-Respects)

  open_remote-Respects : (p : Ptr) → Respects R (open_remote host p)
  unfolding open_remote
  open_remote-Respects p = search (effect_rules, e, remote_id-Respects, download-Respects)

  open_cached-Respects :
      (p : Ptr) (drive_type : String) (content : Option Bytes)
      → Respects R (open_cached host p drive_type content)
  unfolding open_cached
  open_cached-Respects p drive_type none = open_remote-Respects p
  open_cached-Respects p drive_type (some content) =
      search (effect_rules, e, open_remote-Respects) depth 9

  open_closed-Respects : (p : Ptr) → Respects R (open_closed host p)
  unfolding open_closed
  open_closed-Respects p =
      search (effect_rules, e, get_drive_type-Respects, get_content-Respects, open_cached-Respects)
        depth 12

  pub open_file-Respects : (p : Ptr) (flags : ℕ) → Respects R (open_file host p flags)
  unfolding open_file
  open_file-Respects p flags = search (effect_rules, e, open_closed-Respects) depth 9
