-- ===== src/Upload/Effects.antt =====
-- The effects of queueing an upload.
use onedriver.Prelude.{ℕ, Option, none, some}
use onedriver.Host.{Host}
use onedriver.World.{Inode, Slice, UploadSession, Ptr, World}
use onedriver.World.Effects.{Effects, Respects, effect_rules}
use onedriver.Graph.Effects.{request-Respects}
use onedriver.Remote.Effects.{remote_id-Respects}
use onedriver.Upload.{
  SessionResult, register_session, session_of, new_upload_session, enqueue, queue_upload,
}

module _ {host : Host} {R : World host → World host → Type 0} (e : Effects host R) where
  register_session-Respects :
      (time : ℕ) (session : UploadSession) → Respects R (register_session host time session)
  unfolding register_session
  register_session-Respects time session = search (effect_rules, e, request-Respects)

  session_of-Respects :
      (i : Inode) (content : Option Slice) → Respects R (session_of host i content)
  unfolding session_of
  session_of-Respects i none = search (effect_rules, e)
  session_of-Respects i (some content) = search (effect_rules, e, register_session-Respects)

  new_upload_session-Respects : (p : Ptr) → Respects R (new_upload_session host p)
  unfolding new_upload_session
  new_upload_session-Respects p =
      search (effect_rules, e, remote_id-Respects, session_of-Respects) depth 9

  enqueue-Respects : (result : SessionResult) → Respects R (enqueue host result)
  unfolding enqueue
  enqueue-Respects (session, none) = record { at = λ w. e.queue w session }
  enqueue-Respects (session, some err) = record { at = λ w. e.stays w }

  pub queue_upload-Respects : (p : Ptr) → Respects R (queue_upload host p)
  unfolding queue_upload
  queue_upload-Respects p = search (effect_rules, e, new_upload_session-Respects, enqueue-Respects)
