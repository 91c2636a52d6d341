-- ===== src/Cache.antt =====
-- graph/cache.go: the cache of inodes by ID, over the database behind it. Each method runs alone.
pub mod Lookup
pub mod Named
pub mod Members
pub mod Stored
pub mod Insert
pub mod Find
pub mod Missing
pub mod Dropped
pub mod Moved
pub mod Unlisted
pub mod Delete
pub mod Content
pub mod Children
pub mod Paths
pub mod Move
pub mod Effects
use onedriver.Prelude.{
  ℕ, ◌+◌, ◌-◌, ◌%◌, ◌^◌, String, Bool, true, false, Option, none, some, List, [], ◌∷◌, ◌++◌,
  if◌then◌else◌, str_eq, lookup, insert, delete,
}
use onedriver.Item.{Bytes, Result, ok, fail, SerializeableInode, DriveItemParent, DriveItem}
use onedriver.Host.{Host}
use onedriver.World.{
  Inode, Ptr, World, M, Outcome, done, panic, exit, pure, and_then, ◌>>=◌, ◌>>◌, get_world, alloc,
  modify, load, deref,
}
use onedriver.Fields.{bare_inode, parent_id, is_dir}

-- Whether a slice of ids holds one; a nil slice holds none.
unfoldable pub holds : String → List String → Bool
holds id [] = false
holds id (child ∷ ids) = if str_eq child id then true else holds id ids

-- The slice without the first occurrence of an id.
unfoldable pub remove_first : String → List String → List String
remove_first id [] = []
remove_first id (child ∷ ids) = if str_eq child id then ids else child ∷ remove_first id ids

-- The ids of a slice that may be nil.
abbrev pub ids_of : Option (List String) → List String
ids_of none = []
ids_of (some ids) = ids

-- `subdir++` and `subdir--` on a uint32, for a child that is a directory.
abbrev pub count_up : Bool → ℕ → ℕ
count_up directory n = if directory then (n + 1) % 2 ^ 32 else n

abbrev pub count_down : Bool → ℕ → ℕ
count_down directory n = if directory then (n + 2 ^ 32 - 1) % 2 ^ 32 else n

-- `append` to the children, which a nil slice allows.
pub add_child : String → Bool → Inode → Inode
add_child id directory parent = record parent {
  children = some (ids_of parent.children ++ id ∷ []);
  subdir = count_up directory parent.subdir;
}

-- The loop of DeleteID over the children of the parent.
unfoldable pub drop_child : String → Bool → Inode → Inode
drop_child id directory parent =
    if holds id (ids_of parent.children)
    then record parent {
      children = some (remove_first id (ids_of parent.children));
      subdir = count_down directory parent.subdir;
    }
    else parent

-- NewInodeJSON, as GetID keeps it.
unfoldable pub stored_inode : SerializeableInode → Inode
stored_inode s = record {
  item = s.item;
  has_cache = true;
  children = s.children;
  content = none;
  has_changes = false;
  subdir = s.subdir;
  mode = s.mode;
}

module _ (host : Host) where
  -- c.metadata.Store, c.metadata.Delete
  abbrev pub store_metadata : String → Ptr → M host (Unit {0})
  store_metadata id p w = done tt (record w { metadata = insert id p w.metadata })

  abbrev pub delete_metadata : String → M host (Unit {0})
  delete_metadata id w = done tt (record w { metadata = delete id w.metadata })

  -- What the database holds of an id moves to memory.
  unfoldable pub keep_stored : String → Result SerializeableInode → M host (Option Ptr)
  keep_stored id (fail err) = pure none
  keep_stored id (ok s) = do p ← alloc (stored_inode s); store_metadata id p; pure (some p)

  unfoldable pub load_stored : String → Option Bytes → M host (Option Ptr)
  load_stored id none = pure none
  load_stored id (some bytes) = keep_stored id (host.unmarshal_inode bytes)

  -- GetID
  unfoldable pub get_id : String → M host (Option Ptr)
  get_id id w = elim (lookup id w.metadata) [
    | some p ↦ done (some p) w
    | none ↦ load_stored id (host.bucket_get w.metadata_bucket id) w
  ]

  -- The part of InsertID behind the search for the parent.
  unfoldable pub join_parent : String → Ptr → Option Ptr → M host (Unit {0})
  join_parent id p none = pure tt
  join_parent id p (some q) = do
    parent ← load q
    inode ← load p
    if holds id (ids_of parent.children)
        then pure tt
        else modify q (add_child inode.id (is_dir inode))

  -- InsertID
  unfoldable pub insert_id : String → Ptr → M host (Unit {0})
  insert_id id p = do
    modify p (λ i. record i { has_cache = true })
    store_metadata id p
    inode ← load p
    let rest = do parent ← get_id (parent_id inode); join_parent id p parent
    if str_eq (parent_id inode) "" then pure tt else rest

  -- `inode.DriveItem.Parent.ID = id`: a nil parent reference panics.
  unfoldable pub set_parent : Ptr → String → M host (Unit {0})
  set_parent p id = do
    inode ← load p
    reference ← deref inode.parent
    modify p
        (λ i. record i { item = record i.item { parent = some (record reference { id = id }) } })

  -- InsertChild
  unfoldable pub insert_child : String → Ptr → M host (Unit {0})
  insert_child parent_id p = do set_parent p parent_id; child ← load p; insert_id child.id p

  -- DeleteID of an inode that is there: its parent must be there too.
  unfoldable pub leave_parent : String → Option Ptr → M host (Unit {0})
  leave_parent id none = pure tt
  leave_parent id (some p) = do
    inode ← load p
    found ← get_id (parent_id inode)
    q ← deref found
    directory ← load p
    modify q (drop_child id (is_dir directory))

  -- DeleteID
  unfoldable pub delete_id : String → M host (Unit {0})
  delete_id id = do found ← get_id id; leave_parent id found; delete_metadata id
