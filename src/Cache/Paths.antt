-- ===== src/Cache/Paths.antt =====
-- graph/cache.go: looking up, inserting, deleting and moving by path.
use Prim.Native.String.{◌++◌}
use mathlib.Core.List
use onedriver.Prelude.{
  String, Option, none, some, List, [], ◌∷◌, if◌then◌else◌, str_eq, lookup, split_slash, join_slash,
  trim_slash, path_dir, path_base,
}
use onedriver.Item.{Result, ok, fail}
use onedriver.Host.{Host}
use onedriver.World.{Inode, Ptr, M, pure, ◌>>=◌, ◌>>◌, get_world, modify, load, deref}
use onedriver.Graph.{AuthRef, no_auth}
use onedriver.Cache.{get_id, insert_id, delete_id, set_parent}
use onedriver.Cache.Children.{Children, to_lower, get_children_id}

-- SetName
abbrev pub set_name : String → Inode → Inode
set_name name i = record i { item = record i.item { name = name } }

module _ (host : Host) where
  -- The error of GetPath: the parts up to the one that is missing.
  unfoldable pub missing : List String → Result (Option Ptr)
  missing seen =
      fail (join_slash (List.reverse seen) ++ " does not exist on server or in local cache")

  -- The loop of GetPath: the id and inode reached, the parts behind (last first) and ahead.
  unfoldable pub walk :
      AuthRef → String → Option Ptr → List String → List String → M host (Result (Option Ptr))
  walk auth last inode seen [] = pure (ok inode)
  walk auth last inode seen (part ∷ parts) = do
    children ← get_children_id host last auth
    elim children [
      | fail err ↦ pure (fail err)
      | ok found ↦ elim (lookup part found) [
        | none ↦ pure (missing (part ∷ seen))
        | some p ↦ do child ← load p; walk auth child.id (some p) (part ∷ seen) parts
      ]
    ]

  -- The parts of a path that GetPath walks.
  unfoldable pub path_parts : String → List String
  path_parts path = List.tail (split_slash (trim_slash (to_lower host path)))

  -- GetPath
  unfoldable pub get_path : String → AuthRef → M host (Result (Option Ptr))
  get_path path auth = do
    w ← get_world
    let root = do found ← get_id host w.root; pure (ok found)
    if str_eq path "/" then root else walk auth w.root none [] (path_parts path)

  unfoldable pub children_at : AuthRef → Result (Option Ptr) → M host (Result Children)
  children_at auth (fail err) = pure (fail err)
  children_at auth (ok inode) = do p ← deref inode; i ← load p; get_children_id host i.id auth

  -- GetChildrenPath
  unfoldable pub get_children_path : String → AuthRef → M host (Result Children)
  get_children_path path auth = do found ← get_path path auth; children_at auth found

  unfoldable pub delete_found : Result (Option Ptr) → M host (Unit {0})
  delete_found (ok (some p)) = do i ← load p; delete_id host i.id
  delete_found (ok none) = pure tt
  delete_found (fail err) = pure tt

  -- DeletePath
  unfoldable pub delete_path : String → M host (Unit {0})
  delete_path key = do found ← get_path (to_lower host key) no_auth; delete_found found

  -- InsertPath, once the parent was looked for.
  unfoldable pub insert_under : Ptr → Result (Option Ptr) → M host (Option String)
  insert_under p (fail err) = pure (some err)
  insert_under p (ok none) =
      pure (some "Parent of key was nil! Did we accidentally use an ID for the key?")
  insert_under p (ok (some q)) = do
    parent ← load q
    set_parent host p parent.id
    inode ← load p
    insert_id host inode.id p
    pure none

  -- InsertPath
  unfoldable pub insert_path : String → AuthRef → Ptr → M host (Option String)
  insert_path key auth p = do
    found ← get_path (path_dir (to_lower host key)) auth
    insert_under p found

  -- The end of MovePath: a failed insertion is undone at the old path.
  unfoldable pub restore : String → AuthRef → Ptr → Option String → M host (Option String)
  restore old_path auth p none = pure none
  restore old_path auth p (some err) = do
    modify p (set_name (path_base old_path))
    ignored ← insert_path old_path auth p
    pure (some err)

  unfoldable pub move_found :
      String → String → AuthRef → Result (Option Ptr) → M host (Option String)
  move_found old_path new_path auth (fail err) = pure (some err)
  move_found old_path new_path auth (ok inode) = do
    delete_path old_path
    p ← deref inode
    let new_base = path_base new_path
    if str_eq (path_base old_path) new_base then pure tt else modify p (set_name new_base)
    inserted ← insert_path new_path auth p
    restore old_path auth p inserted

  -- MovePath
  unfoldable pub move_path : String → String → AuthRef → M host (Option String)
  move_path old_path new_path auth = do
    found ← get_path old_path auth
    move_found old_path new_path auth found
