-- ===== src/Upload/Nil.antt =====
-- A session that was not made, and is queued all the same.
use onedriver.Prelude.{none, ◌∷◌, ◌≡◌, true, false, str_eq}
use onedriver.Host.{Host}
use onedriver.World.{Ptr, World, done}
use onedriver.Fields.{is_dir, is_local_id}
use onedriver.Remote.{remote_id}
use onedriver.Upload.{new_upload_session, queue_upload}

-- Without an access token, a file with a local id gets no session and no error, and QueueUpload
-- hands the nil session to the upload manager.
pub queue_upload_nil :
    (host : Host) (p : Ptr) (w : World host)
    → is_dir (w.heap p) ≡ false
    → is_local_id (w.heap p).id ≡ true
    → str_eq w.auth.access_token "" ≡ true
    → queue_upload host p w ≡ done none (record w { queued = none ∷ w.queued })
unfolding queue_upload new_upload_session remote_id
queue_upload_nil host p w file local empty = simp (file, local, empty)
