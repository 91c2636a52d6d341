-- ===== src/Upload.antt =====
-- graph/upload_session.go and graph/upload_manager.go: the snapshot of a file that is uploaded.
pub mod Effects
pub mod Chunks
pub mod Nil
use Prim.Native.String.{◌++◌}
use onedriver.Prelude.{
  ℕ, ◌*◌, ◌-◌, String, Bool, ◌||◌, Option, none, some, ◌∷◌, ◌++◌ as append_list, if◌then◌else◌, ltb,
  length, take, replicate, is_some,
}
use onedriver.Item.{Bytes, Result, ok, fail, not_started}
use onedriver.Host.{Host}
use onedriver.World.{Inode, Ptr, M, done, pure, ◌>>=◌, load, deref, Slice, UploadSession}
use onedriver.Fields.{is_local_id}
use onedriver.Graph.{shared_auth, post}
use onedriver.Remote.{remote_id}

-- isLargeSession: more than 4 MB.
unfoldable pub is_large : ℕ → Bool
is_large size = ltb (4 * 1024 * 1024) size

-- `data: make([]byte, size)` and the copy of the contents into it.
unfoldable pub snapshot : ℕ → Bytes → Bytes
snapshot size content = append_list (take size content) (replicate (size - length content) 0)

-- A session, and the error beside it: `(nil, nil)` is possible.
abbrev pub SessionResult : Type 0
SessionResult = Option UploadSession × Option String

module _ (host : Host) where
  read_url : UploadSession → Result (String × String) → SessionResult
  read_url session (fail err) = (none, some err)
  read_url session (ok (id, url)) = (some (record session { id = id; upload_url = url }), none)

  registered : UploadSession → Result Bytes → SessionResult
  unfolding read_url
  registered session (fail err) = (none, some err)
  registered session (ok body) =
      read_url session (host.unmarshal_upload body (session.id, session.upload_url))

  -- A large file's session is registered with the API.
  unfoldable pub register_session : ℕ → UploadSession → M host SessionResult
  unfolding registered
  register_session time session = do
    body ←
        post host ("/me/drive/items/" ++ session.id ++ "/createUploadSession") shared_auth
          (host.marshal_upload time)
    pure (registered session body)

  -- NewUploadSession of an inode with an ID and with contents.
  unfoldable pub session_of : Inode → Option Slice → M host SessionResult
  session_of i none = pure (none, some "inode data was nil")
  session_of i (some content) = do
    let session : UploadSession = record {
      id = i.id;
      upload_url = "";
      size = i.size;
      content = snapshot i.size content.elems;
      state = not_started;
    }
    let register = do time ← deref i.mod_time; register_session time session
    if is_large i.size then register else pure (some session, none)

  -- NewUploadSession
  unfoldable pub new_upload_session : Ptr → M host SessionResult
  new_upload_session p = do
    (id, err) ← remote_id host p
    i ← load p
    if is_some err || is_local_id id then pure (none, err) else session_of i i.content

  -- `u.queue <- session`
  pub enqueue : SessionResult → M host (Option String)
  enqueue (session, none) w = done none (record w { queued = session ∷ w.queued })
  enqueue (session, some err) w = done (some err) w

  -- QueueUpload
  unfoldable pub queue_upload : Ptr → M host (Option String)
  unfolding enqueue
  queue_upload p = do result ← new_upload_session p; enqueue result
