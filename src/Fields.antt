-- ===== src/Fields.antt =====
-- graph/inode.go: reading the fields of an Inode, and making a new one.
pub mod Effects
pub mod Local
use Prim.Native.Nat.{bit_and, bit_or}
use Prim.Native.String.{◌++◌}
use onedriver.Prelude.{
  in_base, ℕ, zero, suc, ◌+◌, ◌%◌, ◌^◌, String, Bool, false, ◌&&◌, ◌||◌, Option, none, some, [],
  if◌then◌else◌, ltb, ◌==◌, str_eq, starts_with, trim_prefix, collapse_slashes, is_some,
}
use onedriver.Item.{DriveItem, zero_item, DriveItemParent}
use onedriver.Host.{Host}
use onedriver.World.{Inode, Ptr, M, pure, ◌>>=◌, alloc, draw, read_clock, load}

-- fuse.S_IFDIR, fuse.S_IFREG
abbrev pub s_ifdir : ℕ
s_ifdir = 0o040000

abbrev pub s_ifreg : ℕ
s_ifreg = 0o100000

-- ParentID
abbrev pub parent_id : Inode → String
parent_id i = elim i.parent [ none ↦ "" | some p ↦ p.id ]

-- Mode: 0 is what an item from the API has.
unfoldable pub get_mode : Inode → ℕ
get_mode i =
    if i.mode == 0
    then (if is_some i.folder then bit_or s_ifdir 0o755 else bit_or s_ifreg 0o644)
    else i.mode

-- IsDir
unfoldable pub is_dir : Inode → Bool
is_dir i = ltb 0 (bit_and (get_mode i) s_ifdir)

-- NLink, a uint32.
unfoldable pub nlink : Inode → ℕ
nlink i = if is_dir i then (2 + i.subdir) % 2 ^ 32 else 1

-- Size
unfoldable pub get_size : Inode → ℕ
get_size i = if is_dir i then 4096 else i.size

-- HasContent
abbrev pub has_content : Inode → Bool
has_content i = is_some i.content

-- Path
unfoldable pub inode_path : Inode → String
inode_path i = if str_eq (parent_id i) "" && str_eq i.name "root" then "/" else elim i.parent [
  | none ↦ i.name
  | some p ↦ collapse_slashes (trim_prefix (p.path ++ "/" ++ i.name) "/drive/root:")
]

-- Octal
unfoldable pub octal : ℕ → String
octal n = in_base 8 n

-- isLocalID
abbrev pub is_local_id : String → Bool
is_local_id id = starts_with id "local-" || str_eq id ""

abbrev pub charset : String
charset = "abcdefghijklmnopqrstuvwxyzABCDEFGHIJKLMNOPQRSTUVWXYZ0123456789"

abbrev nth : String → ℕ → String
nth String.[] n = ""
nth (String.◌∷◌ c s) zero = String.◌∷◌ c ""
nth (String.◌∷◌ c s) (suc n) = nth s n

module _ (host : Host) where
  -- randString; rand.Intn(62) is a random number below 62.
  unfoldable pub rand_string : ℕ → M host String
  rand_string zero = pure ""
  rand_string (suc length) = do
    r ← draw
    rest ← rand_string length
    pure (nth charset (r % 62) ++ rest)

  -- localID
  unfoldable pub local_id : M host String
  local_id = do r ← rand_string 20; pure ("local-" ++ r)

  -- The parent reference of NewInode: empty where there is no parent.
  unfoldable pub item_parent : Option Ptr → M host DriveItemParent
  item_parent none = pure (record { path = ""; id = "" })
  item_parent (some p) = do
    parent ← load p
    pure (record { path = inode_path parent; id = parent.id })

  -- NewInode
  unfoldable pub new_inode : String → ℕ → Option Ptr → M host Ptr
  new_inode name mode parent = do
    reference ← item_parent parent
    time ← read_clock
    id ← local_id
    alloc (record {
      item = record zero_item {
        id = id;
        name = name;
        parent = some reference;
        mod_time = some time;
      };
      has_cache = false;
      children = some [];
      content = some (record { elems = []; spare = [] });
      has_changes = false;
      subdir = 0;
      mode = mode;
    })

  -- An Inode{} around a parsed item.
  abbrev pub bare_inode : DriveItem → Inode
  bare_inode item = record {
    item = item;
    has_cache = false;
    children = none;
    content = none;
    has_changes = false;
    subdir = 0;
    mode = 0;
  }
