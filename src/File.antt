-- ===== src/File.antt =====
-- graph/inode.go: the handlers for the contents and the attributes of a file.
pub mod Effects
pub mod Contents
pub mod Saved
pub mod Reread
pub mod Forgotten
use Prim.Native.Nat.{bit_or}
use onedriver.Prelude.{
  ℕ, String, Bool, true, false, Option, none, some, [], if◌then◌else◌, str_eq, length,
}
use onedriver.Item.{Bytes, Hashes}
use onedriver.Host.{Host}
use onedriver.Hashes.{sha1_hash, quick_xor_hash}
use onedriver.World.{Inode, Ptr, M, pure, ◌>>=◌, ◌>>◌, modify, load, deref, Slice}
use onedriver.Slices.{read_slice, overwrite, resize}
use onedriver.Fields.{is_dir, get_size, nlink, get_mode, has_content, s_ifdir, s_ifreg}
use onedriver.Cache.Content.{insert_content}
use onedriver.Remote.{get_drive_type, need_cache}
use onedriver.Upload.{queue_upload}
use onedriver.Open.{Errno, success, einval, eremoteio, fill, open_file}

-- fuse.Attr, without the owner and with one time for its three.
pub record Attr : Type 0 where
  pub size : ℕ
  pub nlink : ℕ
  pub mtime : ℕ
  pub mode : ℕ

-- fuse.SetAttrIn: the fields that are valid.
pub record SetAttrIn : Type 0 where
  pub mtime : Option ℕ
  pub mode : Option ℕ
  pub size : Option ℕ

module _ (host : Host) where
  pub changed : Slice → Inode → Inode
  changed content i = record (fill content i) { has_changes = true }

  -- Reopening in Read and Write, whose outcome is dropped.
  pub ensure_open : Ptr → M host (Unit {0})
  ensure_open p = do
    i ← load p
    let reopen = do ignored ← open_file host p 0; pure tt
    if has_content i then pure tt else reopen

  read_errno : Option Bytes → Bytes × Errno
  read_errno none = ([], einval)
  read_errno (some bytes) = (bytes, success)

  -- Read of `count` bytes
  unfoldable pub read : Ptr → ℕ → ℕ → M host (Bytes × Errno)
  unfolding ensure_open read_errno
  read p count off = do
    ensure_open p
    i ← load p
    content ← deref i.content
    pure (read_errno (read_slice count off content))

  -- Write, which returns the number of bytes.
  unfoldable pub write : Ptr → Bytes → ℕ → M host (ℕ × Errno)
  unfolding ensure_open changed
  write p bytes offset = do
    ensure_open p
    i ← load p
    content ← deref i.content
    next ← deref (overwrite host bytes offset i.size content)
    modify p (changed next)
    pure (length bytes, success)

  -- makeattr; a nil modification time panics.
  unfoldable pub make_attr : Ptr → M host Attr
  make_attr p = do
    i ← load p
    mtime ← deref i.mod_time
    pure (record { size = get_size i; nlink = nlink i; mtime = mtime; mode = get_mode i })

  -- Getattr
  unfoldable pub get_attr : Ptr → M host (Attr × Errno)
  get_attr p = do attr ← make_attr p; pure (attr, success)

  pub set_mtime : Option ℕ → Inode → Inode
  set_mtime none i = i
  set_mtime (some time) i = record i { item = record i.item { mod_time = some time } }

  pub set_mode : Option ℕ → Bool → Inode → Inode
  set_mode none directory i = i
  set_mode (some mode) directory i = record i {
    mode = if directory then bit_or s_ifdir mode else bit_or s_ifreg mode;
  }

  pub set_size : Option ℕ → Ptr → M host (Unit {0})
  set_size none p = pure tt
  set_size (some size) p = do
    i ← load p
    content ← deref i.content
    next ← deref (resize host size i.size content)
    modify p (λ j. record j {
      item = record j.item { size = size };
      content = some next;
      has_changes = true;
    })

  -- Setattr
  unfoldable pub set_attr : Ptr → SetAttrIn → M host (Attr × Errno)
  unfolding set_mtime set_mode set_size
  set_attr p new = do
    i ← load p
    modify p (set_mtime new.mtime)
    modify p (set_mode new.mode (is_dir i))
    set_size new.size p
    attr ← make_attr p
    pure (attr, success)

  -- The hash that Fsync records, of the kind that the drive uses.
  unfoldable pub new_hashes : String → Bytes → Hashes
  new_hashes drive_type content =
      if str_eq drive_type "personal"
      then record { sha1_hash = sha1_hash host content; quick_xor_hash = "" }
      else record { sha1_hash = ""; quick_xor_hash = quick_xor_hash host content }

  pub upload_errno : Option String → Errno
  upload_errno none = success
  upload_errno (some err) = eremoteio

  -- Fsync of a file with changes.
  unfoldable pub sync_changes : Ptr → M host Errno
  unfolding upload_errno
  sync_changes p = do
    modify p (λ i. record i { has_changes = false })
    need_cache host p
    drive_type ← get_drive_type host
    i ← load p
    content ← deref i.content
    modify p (λ j. record j {
      item = record j.item { file = some (new_hashes drive_type content.elems) };
    })
    err ← queue_upload host p
    pure (upload_errno err)

  -- Fsync
  unfoldable pub fsync : Ptr → M host Errno
  fsync p = do i ← load p; let sync = sync_changes p; if i.has_changes then sync else pure success

  -- The contents go to the disk and leave the memory.
  pub store_content : Ptr → Option Slice → M host (Unit {0})
  store_content p none = pure tt
  store_content p (some content) = do
    i ← load p
    need_cache host p
    ignored ← insert_content host i.id content.elems
    modify p (λ j. record j { content = none })

  -- Flush
  unfoldable pub flush : Ptr → M host Errno
  unfolding store_content
  flush p = do ignored ← fsync p; i ← load p; store_content p i.content; pure success
