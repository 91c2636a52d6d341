-- ===== src/Remote.antt =====
-- graph/inode.go and graph/cache.go: obtaining an ID from the server, and the drive's type.
pub mod Effects
pub mod Registered
use Prim.Native.String.{◌++◌}
use onedriver.Prelude.{String, not, ◌&&◌, Option, none, some, [], if◌then◌else◌, str_eq, contains}
use onedriver.Item.{Bytes, Result, ok, fail, Drive, DriveItem}
use onedriver.Host.{Host}
use onedriver.World.{Ptr, M, done, panic, pure, ◌>>=◌, ◌>>◌, get_world, modify, load}
use onedriver.Fields.{parent_id, is_dir, is_local_id, new_inode}
use onedriver.Graph.{shared_auth, put, get_item, get_drive}
use onedriver.Cache.Move.{move_id}

-- An id, and the error beside it.
abbrev pub IdResult : Type 0
IdResult = String × Option String

module _ (host : Host) where
  pub keep_drive_type : Result Drive → M host String
  keep_drive_type (ok drive) w = done drive.drive_type (record w { drive_type = drive.drive_type })
  keep_drive_type (fail err) w = done "" w

  -- DriveType: it is fetched while it is empty.
  unfoldable pub get_drive_type : M host String
  unfolding keep_drive_type
  get_drive_type = do
    w ← get_world
    let fetch = do drive ← get_drive host shared_auth; keep_drive_type drive
    if str_eq w.drive_type "" then fetch else pure w.drive_type

  -- GetCache of an inode that was never in the cache is nil, and its methods panic.
  abbrev pub need_cache : Ptr → M host (Unit {0})
  need_cache p = do i ← load p; if i.has_cache then pure tt else (λ w. panic)

  -- The new ID moves the item in the cache.
  pub take_id : Ptr → String → String → M host IdResult
  take_id p original new = do need_cache p; err ← move_id host original new; pure (new, err)

  -- The answer to the question for the item that the server has.
  pub take_latest : Ptr → String → String → Result Ptr → M host IdResult
  unfolding take_id
  take_latest p original err (fail other) = pure (original, some err)
  take_latest p original err (ok latest) = do i ← load latest; take_id p original i.id

  -- The item is there already: another thread or the server has its ID.
  pub name_exists : Ptr → String → String → M host IdResult
  unfolding take_latest
  name_exists p original err = do
    i ← load p
    let ask = do latest ← get_item host i.id shared_auth; take_latest p original err latest
    if is_local_id i.id then ask else pure (i.id, none)

  pub read_id : Ptr → String → Ptr → Result DriveItem → M host IdResult
  unfolding take_id
  read_id p original unsafe (fail err) = pure (original, some err)
  read_id p original unsafe (ok item) = do
    modify unsafe (λ i. record i { item = item })
    take_id p original item.id

  -- The answer to the upload of an empty file.
  pub uploaded : Ptr → String → Result Bytes → M host IdResult
  unfolding name_exists read_id
  uploaded p original (fail err) =
      if contains err "nameAlreadyExists"
      then name_exists p original err
      else pure (original, some err)
  uploaded p original (ok body) = do
    i ← load p
    unsafe ← new_inode host i.name 0o644 none
    fresh ← load unsafe
    read_id p original unsafe (host.unmarshal_item body fresh.item)

  -- RemoteID, with the cache's tokens.
  unfoldable pub remote_id : Ptr → M host IdResult
  unfolding uploaded
  remote_id p = do
    i ← load p
    w ← get_world
    let ask = do
      body ←
          put host ("/me/drive/items/" ++ parent_id i ++ ":/" ++ i.name ++ ":/content") shared_auth
            []
      uploaded p i.id body
    if not (is_dir i) && (is_local_id i.id && not (str_eq w.auth.access_token ""))
        then ask
        else pure (i.id, none)
