-- ===== src/Handlers/Offline.antt =====
-- The handlers that refuse to work offline.
use onedriver.Prelude.{ℕ, String, true, none, ◌≡◌}
use onedriver.Item.{ok}
use onedriver.Host.{Host}
use onedriver.World.{Ptr, World, done}
use onedriver.Open.{wants_write, open_file, erofs}
use onedriver.Handlers.{create, unlink_child}

-- Offline, creating a file below a cached directory, deleting a child that was found and opening a
-- file for writing are refused with EROFS, and nothing changes.
pub offline_refuses :
    (host : Host) (p child : Ptr) (name : String) (mode flags : ℕ) (w : World host)
    → w.offline ≡ true
    → (w.heap p).has_cache ≡ true
    → wants_write host flags ≡ true
    → (create host p name mode w ≡ done (none, erofs) w)
      × (unlink_child host (ok child) w ≡ done erofs w)
      × (open_file host p flags w ≡ done erofs w)
unfolding create unlink_child open_file
offline_refuses host p child name mode flags w off cached write =
    (simp (cached, off), simp off, simp (write, off))
