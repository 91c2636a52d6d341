-- ===== src/Cache/Move.antt =====
-- graph/cache.go: an item gets a new ID.
pub mod Place
use Prim.Native.String.{◌++◌}
use onedriver.Prelude.{String, Option, none, some, List, [], ◌∷◌, if◌then◌else◌, str_eq}
use onedriver.Host.{Host}
use onedriver.World.{Inode, Ptr, M, pure, ◌>>=◌, ◌>>◌, modify, load, deref}
use onedriver.Fields.{parent_id}
use onedriver.Cache.{get_id, insert_id, delete_id}
use onedriver.Cache.Content.{move_content}

-- A list of ids with one id in the place of another, where that stands first.
unfoldable pub replace_first : String → String → List String → List String
replace_first old new [] = []
replace_first old new (child ∷ ids) =
    if str_eq child old then new ∷ ids else child ∷ replace_first old new ids

abbrev pub replace_in : String → String → Option (List String) → Option (List String)
replace_in old new none = none
replace_in old new (some ids) = some (replace_first old new ids)

unfoldable pub rename_child : String → String → Inode → Inode
rename_child old new parent = record parent { children = replace_in old new parent.children }

unfoldable pub set_id : String → Inode → Inode
set_id id i = record i { item = record i.item { id = id } }

module _ (host : Host) where
  -- MoveID of an inode that was found.
  unfoldable pub move_inode : String → String → Ptr → M host (Option String)
  move_inode old_id new_id p = do
    inode ← load p
    found ← get_id host (parent_id inode)
    q ← deref found
    modify q (rename_child old_id new_id)
    modify p (set_id new_id)
    delete_id host old_id
    insert_id host new_id p
    moved ← move_content host old_id new_id
    pure none

  unfoldable pub move_renamed : String → String → Option Ptr → M host (Option String)
  move_renamed old_id new_id none = pure (some ("Could not get item: " ++ old_id))
  move_renamed old_id new_id (some p) = move_inode old_id new_id p

  -- MoveID where the old ID is gone: the item may have its new ID already.
  unfoldable pub move_found : String → String → Option Ptr → M host (Option String)
  move_found old_id new_id (some p) = move_inode old_id new_id p
  move_found old_id new_id none = do new ← get_id host new_id; move_renamed old_id new_id new

  -- MoveID
  unfoldable pub move_id : String → String → M host (Option String)
  move_id old_id new_id = do old ← get_id host old_id; move_found old_id new_id old
