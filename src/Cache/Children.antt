-- ===== src/Cache/Children.antt =====
-- graph/cache.go: the children of a directory, from the cache or from the server.
use Prim.Native.String.{◌++◌}
use onedriver.Prelude.{
  true, String, Option, none, some, List, [], ◌∷◌, if◌then◌else◌, str_eq, insert, map_runes,
}
use onedriver.Item.{Bytes, Result, ok, fail, DriveItem}
use onedriver.Host.{Host}
use onedriver.World.{Ptr, M, pure, ◌>>=◌, ◌>>◌, alloc, modify, load}
use onedriver.Fields.{bare_inode, is_dir}
use onedriver.Auth.{is_offline}
use onedriver.Graph.{AuthRef, get, children_path_id}
use onedriver.Cache.{add_child, get_id, store_metadata}

-- map[string]*Inode, by the name in lower case.
abbrev pub Children : Type 0
Children = List (String × Ptr)

module _ (host : Host) where
  -- strings.ToLower
  abbrev pub to_lower : String → String
  to_lower = map_runes host.lower_rune

  -- One child that the cache has: it is entered under its name, a missing one is skipped.
  unfoldable pub enter : Option Ptr → Children → M host Children
  enter none found = pure found
  enter (some p) found = do i ← load p; pure (insert (to_lower i.name) p found)

  -- The children that the cache has, one id after the other.
  unfoldable pub collect : List String → Children → M host Children
  collect [] found = pure found
  collect (id ∷ ids) found = do child ← get_id host id; next ← enter child found; collect ids next

  -- The children that the server sent become inodes and entries of the parent.
  unfoldable pub adopt : Ptr → List DriveItem → Children → M host Children
  adopt parent [] found = pure found
  adopt parent (item ∷ items) found = do
    p ← alloc (record (bare_inode host item) { has_cache = true })
    store_metadata host item.id p
    child ← load p
    modify parent (add_child item.id (is_dir child))
    adopt parent items (insert (to_lower item.name) p found)

  -- GetChildrenID, once the server has answered.
  unfoldable pub fetched : Ptr → Result Bytes → M host (Result Children)
  fetched p (fail err) = if is_offline err then pure (ok []) else pure (fail err)
  fetched p (ok body) = do
    modify p (λ i. record i { children = some [] })
    children ← adopt p (host.unmarshal_children body) []
    pure (ok children)

  unfoldable pub children_of :
      String → Ptr → AuthRef → Option (List String) → M host (Result Children)
  children_of id p auth (some ids) = do children ← collect ids []; pure (ok children)
  children_of id p auth none = do body ← get host (children_path_id id) auth; fetched p body

  -- GetChildrenID of what GetID has found; an ordinary file is an empty folder.
  unfoldable pub list_found : String → AuthRef → Option Ptr → M host (Result Children)
  list_found id auth none = pure (fail (id ++ " not found in cache"))
  list_found id auth (some p) = do
    inode ← load p
    let children = children_of id p auth inode.children
    if is_dir inode then children else pure (ok [])

  -- GetChildrenID
  unfoldable pub get_children_id : String → AuthRef → M host (Result Children)
  get_children_id id auth = do found ← get_id host id; list_found id auth found

  -- The loop of GetChild.
  unfoldable pub find_child : String → Children → M host (Result Ptr)
  find_child name [] = pure (fail "Child does not exist")
  find_child name ((key, p) ∷ children) = do
    i ← load p
    let rest = find_child name children
    if str_eq (to_lower i.name) (to_lower name) then pure (ok p) else rest

  unfoldable pub find_among : String → Result Children → M host (Result Ptr)
  find_among name (fail err) = pure (fail err)
  find_among name (ok found) = find_child name found

  -- GetChild
  unfoldable pub get_child : String → String → AuthRef → M host (Result Ptr)
  get_child id name auth = do children ← get_children_id id auth; find_among name children
