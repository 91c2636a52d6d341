-- ===== src/Open.antt =====
-- graph/inode.go: opening a file, from the disk or from the server.
pub mod Effects
use Prim.Native.Nat.{bit_and}
use onedriver.Prelude.{
  ℕ, ◌+◌, String, Bool, not, ◌&&◌, Option, none, some, if◌then◌else◌, ltb, str_eq, is_some,
}
use onedriver.Item.{Bytes, Result, ok, fail}
use onedriver.Host.{Host}
use onedriver.Hashes.{sha1_hash, quick_xor_hash}
use onedriver.World.{Inode, Ptr, M, pure, ◌>>=◌, ◌>>◌, get_world, modify, load, deref, Slice}
use onedriver.Slices.{len, exactly}
use onedriver.Fields.{is_local_id, has_content}
use onedriver.Graph.{shared_auth, get_item_content}
use onedriver.Cache.Content.{get_content}
use onedriver.Cache.Children.{to_lower}
use onedriver.Remote.{remote_id, get_drive_type, need_cache, IdResult}

-- The syscall.Errno values that the handlers return.
pub data Errno : Type 0 where
  success einval enoent eremoteio erofs ebadf eio : Errno

-- What Open and the other handlers leave in the inode.
unfoldable pub fill : Slice → Inode → Inode
fill content i = record i { item = record i.item { size = len content }; content = some content }

module _ (host : Host) where
  -- The hashes that are compared in Open: the one the server gave and the one of the contents. With
  -- no file facet to read, that is a panic.
  unfoldable pub hashes : String → Inode → Bytes → Option (String × String)
  hashes drive_type i content =
      if is_local_id i.id && not (is_some i.file)
      then some ("", "")
      else if str_eq drive_type "personal"
      then elim i.file [
        | none ↦ none
        | some h ↦ some (to_lower host h.sha1_hash, to_lower host (sha1_hash host content))
      ]
      else if str_eq drive_type "business"
      then elim i.file [
        | none ↦ none
        | some h ↦
            some (to_lower host h.quick_xor_hash, to_lower host (quick_xor_hash host content))
      ]
      else some ("", "")

  -- Open with contents from the server.
  pub downloaded : Ptr → Result Bytes → M host Errno
  downloaded p (fail err) = pure eremoteio
  downloaded p (ok body) = do
    modify p (fill (record { elems = body; spare = host.read_room body }))
    pure success

  pub download : Ptr → IdResult → M host Errno
  unfolding downloaded
  download p (id, some err) = pure eremoteio
  download p (id, none) = do
    let fetch = do body ← get_item_content host id shared_auth; downloaded p body
    if str_eq id "" then pure eremoteio else fetch

  -- Open by the API.
  unfoldable pub open_remote : Ptr → M host Errno
  unfolding download
  open_remote p = do id ← remote_id host p; download p id

  -- Open with contents from the disk, which are used if the hashes agree.
  unfoldable pub open_cached : Ptr → String → Option Bytes → M host Errno
  open_cached p drive_type none = open_remote p
  open_cached p drive_type (some content) = do
    i ← load p
    (wanted, actual) ← deref (hashes drive_type i content)
    let use_it = do modify p (fill (exactly content)); pure success
    if str_eq actual wanted then use_it else open_remote p

  -- Open of a file that is not in memory.
  unfoldable pub open_closed : Ptr → M host Errno
  open_closed p = do
    i ← load p
    need_cache host p
    drive_type ← get_drive_type host
    content ← get_content host i.id
    open_cached p drive_type content

  -- O_RDWR is 2 and O_WRONLY is 1.
  abbrev pub wants_write : ℕ → Bool
  wants_write flags = ltb 0 (bit_and flags 2 + bit_and flags 1)

  -- Open
  unfoldable pub open_file : Ptr → ℕ → M host Errno
  open_file p flags = do
    w ← get_world
    i ← load p
    let reopen = if has_content i then pure success else open_closed p
    if wants_write flags && w.offline then pure erofs else reopen
