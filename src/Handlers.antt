-- ===== src/Handlers.antt =====
-- graph/inode.go: the handlers for directories.
pub mod Effects
pub mod Offline
pub mod Unlinked
pub mod Created
pub mod Grown
pub mod Others
pub mod Shown
pub mod Found
pub mod Undone
pub mod Accepted
pub mod Renamed
use Prim.Native.String.{◌++◌}
use onedriver.Prelude.{
  ℕ, String, Bool, true, false, ◌||◌, Option, none, some, List, [], ◌∷◌, if◌then◌else◌, str_eq,
  is_some, starts_with, path_dir, path_base, path_join,
}
use onedriver.Item.{Result, ok, fail}
use onedriver.Host.{Host}
use onedriver.World.{Ptr, M, pure, ◌>>=◌, ◌>>◌, get_world, load, deref}
use onedriver.Fields.{is_local_id, new_inode, get_mode}
use onedriver.Graph
use onedriver.Graph.{no_auth, shared_auth}
use onedriver.Cache.{get_id, insert_child, delete_id}
use onedriver.Cache.Content.{delete_content}
use onedriver.Cache.Children.{Children, to_lower, get_children_id, get_child}
use onedriver.Cache.Paths.{get_path, move_path}
use onedriver.Remote.{remote_id, need_cache, IdResult}
use onedriver.Open.{Errno, success, enoent, eremoteio, erofs, ebadf, eio}
use onedriver.File.{Attr, make_attr}

-- ignore: files that are never looked up.
abbrev pub ignored_files : List String
ignored_files = "BDMV" ∷ "autorun.inf" ∷ ".localized" ∷ ".DS_Store" ∷ "._." ∷ ".hidden" ∷ []

unfoldable pub one_of : String → List String → Bool
one_of path [] = false
one_of path (file ∷ files) = if str_eq path file then true else one_of path files

abbrev pub ignore : String → Bool
ignore path = one_of path ignored_files

-- leadingSlash
unfoldable pub leading_slash : String → String
leading_slash path = if starts_with path "/" then path else "/" ++ path

module _ (host : Host) where
  pub found_child : Result Ptr → M host (Option (Ptr × Attr) × Errno)
  found_child (fail err) = pure (none, enoent)
  found_child (ok p) = do attr ← make_attr host p; pure (some (p, attr), success)

  -- Lookup
  unfoldable pub look_up : Ptr → String → M host (Option (Ptr × Attr) × Errno)
  unfolding found_child
  look_up p name = do
    i ← load p
    let find = do
      need_cache host p
      child ← get_child host i.id (to_lower host name) shared_auth
      found_child child
    if ignore name then pure (none, enoent) else find

  -- The entries of a directory: names and modes, in the order in which the range goes through the
  -- children.
  unfoldable pub dir_entries : Children → M host (List (String × ℕ))
  dir_entries [] = pure []
  dir_entries ((key, p) ∷ children) = do
    i ← load p
    rest ← dir_entries children
    pure ((i.name, get_mode i) ∷ rest)

  pub listed : (Children → Children) → Result Children → M host (List (String × ℕ) × Errno)
  listed order (fail err) = pure ([], eremoteio)
  listed order (ok children) = do entries ← dir_entries (order children); pure (entries, success)

  -- Readdir, with the order in which its range goes through the map of children, which Go leaves
  -- open.
  unfoldable pub read_dir : Ptr → (Children → Children) → M host (List (String × ℕ) × Errno)
  unfolding listed
  read_dir p order = do
    need_cache host p
    i ← load p
    children ← get_children_id host i.id shared_auth
    listed order children

  -- Create
  unfoldable pub create : Ptr → String → ℕ → M host (Option Ptr × Errno)
  create p name mode = do
    i ← load p
    need_cache host p
    w ← get_world
    let make = do
      q ← new_inode host name mode (some p)
      insert_child host i.id q
      pure (some q, success)
    if w.offline then pure (none, erofs) else make

  pub made_dir : String → Result Ptr → M host (Option Ptr × Errno)
  made_dir id (fail err) = pure (none, eremoteio)
  made_dir id (ok q) = do insert_child host id q; pure (some q, success)

  -- Mkdir of an inode
  unfoldable pub make_dir : Ptr → String → M host (Option Ptr × Errno)
  unfolding made_dir
  make_dir p name = do
    need_cache host p
    i ← load p
    item ← Graph.mkdir host name i.id shared_auth
    made_dir i.id item

  -- The local end of Unlink.
  pub unlink_local : String → M host Errno
  unlink_local id = do delete_id host id; ignored ← delete_content host id; pure success

  pub unlink_removed : String → Option String → M host Errno
  unfolding unlink_local
  unlink_removed id none = unlink_local id
  unlink_removed id (some err) = pure eremoteio

  -- Unlink of a child that is there: a local one is unknown to the server.
  unfoldable pub unlink_child : Result Ptr → M host Errno
  unfolding unlink_local unlink_removed
  unlink_child (fail err) = pure enoent
  unlink_child (ok p) = do
    w ← get_world
    child ← load p
    let ask = do err ← Graph.remove host child.id shared_auth; unlink_removed child.id err
    let delete = if is_local_id child.id then unlink_local child.id else ask
    if w.offline then pure erofs else delete

  -- Unlink
  unfoldable pub unlink : Ptr → String → M host Errno
  unlink p name = do
    need_cache host p
    i ← load p
    child ← get_child host i.id name no_auth
    unlink_child child

  -- Rmdir
  abbrev pub rmdir : Ptr → String → M host Errno
  rmdir = unlink

  -- InodePath
  unfoldable pub cache_path : Ptr → M host String
  cache_path p = do
    w ← get_world
    root ← get_id host w.root
    r ← deref root
    pure (leading_slash (w.fuse_path p))

  pub result_of : Result Ptr → Option Ptr
  result_of (ok p) = some p
  result_of (fail err) = none

  -- The ends of Rename, after the server has renamed and after the cache has.
  pub renamed_local : Option String → Errno
  renamed_local none = success
  renamed_local (some err) = eio

  pub renamed_remote : String → String → Option String → M host Errno
  unfolding renamed_local
  renamed_remote path dest (some err) = pure eremoteio
  renamed_remote path dest none = do
    err ← move_path host path dest shared_auth
    pure (renamed_local err)

  -- Rename under the parent that the destination has.
  pub rename_under : String → String → String → Result (Option Ptr) → M host Errno
  unfolding renamed_remote
  rename_under id path dest (fail err) = pure enoent
  rename_under id path dest (ok found) = do
    q ← deref found
    parent ← load q
    let move = do
      err ← Graph.rename host id (path_base dest) parent.id shared_auth
      renamed_remote path dest err
    if is_local_id parent.id then pure ebadf else move

  pub rename_item : String → String → IdResult → M host Errno
  unfolding rename_under
  rename_item path dest (id, err) = do
    let move = do
      parent ← get_path host (path_dir dest) shared_auth
      rename_under id path dest parent
    if is_local_id id || is_some err then pure ebadf else move

  -- Rename
  unfoldable pub rename : Ptr → String → Ptr → String → M host Errno
  unfolding result_of rename_item
  rename p name new_parent new_name = do
    need_cache host p
    old_dir ← cache_path p
    new_dir ← cache_path new_parent
    i ← load p
    found ← get_child host i.id name shared_auth
    child ← deref (result_of found)
    id ← remote_id host child
    rename_item (path_join old_dir name) (path_join new_dir new_name) id
