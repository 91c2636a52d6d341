-- ===== src/Handlers/Effects.antt =====
-- The effects of the handlers for directories.
use onedriver.Prelude.{ℕ, String, Option, none, some, [], ◌∷◌}
use onedriver.Item.{Result, ok, fail}
use onedriver.Host.{Host}
use onedriver.World.{Ptr, World, load}
use onedriver.World.Effects.{
  Effects, Respects, Respects-pure, Respects-bind, Respects-load, effect_rules,
}
use onedriver.Fields.{get_mode}
use onedriver.Fields.Effects.{new_inode-Respects}
use onedriver.Graph.Effects.{
  request-Respects, mkdir-Respects, rename-Respects as Graph-rename-Respects,
}
use onedriver.Cache.Effects.{get_id-Respects, insert_child-Respects, delete_id-Respects}
use onedriver.Cache.Effects.Children.{get_children_id-Respects, get_child-Respects}
use onedriver.Cache.Effects.Moves.{delete_content-Respects}
use onedriver.Cache.Effects.Paths.{get_path-Respects, move_path-Respects}
use onedriver.Cache.Children.{Children}
use onedriver.Remote.{IdResult}
use onedriver.Remote.Effects.{remote_id-Respects}
use onedriver.File.Effects.{make_attr-Respects}
use onedriver.Handlers.{
  found_child, look_up, dir_entries, listed, read_dir, create, made_dir, make_dir, unlink_local,
  unlink_removed, unlink_child, unlink, cache_path, renamed_remote, rename_under, rename_item,
  rename,
}

module _ {host : Host} {R : World host → World host → Type 0} (e : Effects host R) where
  found_child-Respects : (child : Result Ptr) → Respects R (found_child host child)
  unfolding found_child
  found_child-Respects (fail err) = search (effect_rules, e)
  found_child-Respects (ok p) = search (effect_rules, e, make_attr-Respects)

  pub look_up-Respects : (p : Ptr) (name : String) → Respects R (look_up host p name)
  unfolding look_up
  look_up-Respects p name =
      search (effect_rules, e, get_child-Respects, found_child-Respects) depth 9

  dir_entries-Respects : (children : Children) → Respects R (dir_entries host children)
  unfolding dir_entries
  dir_entries-Respects [] = search (effect_rules, e)
  dir_entries-Respects ((key, p) ∷ children) = Respects-bind e (load p) _ (Respects-load e p) (λ i.
      Respects-bind e (dir_entries host children) _ (dir_entries-Respects children)
        (λ rest. Respects-pure e ((i.name, get_mode i) ∷ rest)))

  listed-Respects :
      (order : Children → Children) (children : Result Children)
      → Respects R (listed host order children)
  unfolding listed
  listed-Respects order (fail err) = search (effect_rules, e)
  listed-Respects order (ok children) = search (effect_rules, e, dir_entries-Respects)

  pub read_dir-Respects :
      (p : Ptr) (order : Children → Children) → Respects R (read_dir host p order)
  unfolding read_dir
  read_dir-Respects p order =
      search (effect_rules, e, get_children_id-Respects, listed-Respects) depth 9

  pub create-Respects : (p : Ptr) (name : String) (mode : ℕ) → Respects R (create host p name mode)
  unfolding create
  create-Respects p name mode =
      search (effect_rules, e, new_inode-Respects, insert_child-Respects) depth 12

  made_dir-Respects : (id : String) (made : Result Ptr) → Respects R (made_dir host id made)
  unfolding made_dir
  made_dir-Respects id (fail err) = search (effect_rules, e)
  made_dir-Respects id (ok q) = search (effect_rules, e, insert_child-Respects)

  pub make_dir-Respects : (p : Ptr) (name : String) → Respects R (make_dir host p name)
  unfolding make_dir
  make_dir-Respects p name = search (effect_rules, e, mkdir-Respects, made_dir-Respects) depth 9

  unlink_local-Respects : (id : String) → Respects R (unlink_local host id)
  unfolding unlink_local
  unlink_local-Respects id = search (effect_rules, e, delete_id-Respects, delete_content-Respects)

  unlink_removed-Respects :
      (id : String) (err : Option String) → Respects R (unlink_removed host id err)
  unfolding unlink_removed
  unlink_removed-Respects id none = unlink_local-Respects id
  unlink_removed-Respects id (some err) = search (effect_rules, e)

  unlink_child-Respects : (child : Result Ptr) → Respects R (unlink_child host child)
  unfolding unlink_child
  unlink_child-Respects (fail err) = search (effect_rules, e)
  unlink_child-Respects (ok p) =
      search (effect_rules, e, request-Respects, unlink_local-Respects, unlink_removed-Respects)
        depth 9

  pub unlink-Respects : (p : Ptr) (name : String) → Respects R (unlink host p name)
  unfolding unlink
  unlink-Respects p name =
      search (effect_rules, e, get_child-Respects, unlink_child-Respects) depth 9

  pub cache_path-Respects : (p : Ptr) → Respects R (cache_path host p)
  unfolding cache_path
  cache_path-Respects p = search (effect_rules, e, get_id-Respects)

  renamed_remote-Respects :
      (path dest : String) (err : Option String) → Respects R (renamed_remote host path dest err)
  unfolding renamed_remote
  renamed_remote-Respects path dest (some err) = search (effect_rules, e)
  renamed_remote-Respects path dest none = search (effect_rules, e, move_path-Respects)

  rename_under-Respects :
      (id path dest : String) (parent : Result (Option Ptr))
      → Respects R (rename_under host id path dest parent)
  unfolding rename_under
  rename_under-Respects id path dest (fail err) = search (effect_rules, e)
  rename_under-Respects id path dest (ok found) =
      search (effect_rules, e, Graph-rename-Respects, renamed_remote-Respects) depth 9

  rename_item-Respects :
      (path dest : String) (id : IdResult) → Respects R (rename_item host path dest id)
  unfolding rename_item
  rename_item-Respects path dest (id, err) =
      search (effect_rules, e, get_path-Respects, rename_under-Respects) depth 9

  pub rename-Respects :
      (p : Ptr) (name : String) (new_parent : Ptr) (new_name : String)
      → Respects R (rename host p name new_parent new_name)
  unfolding rename
  rename-Respects p name new_parent new_name =
      search
        (
          effect_rules, e, cache_path-Respects, get_child-Respects, remote_id-Respects,
          rename_item-Respects,
        )
        depth 14
