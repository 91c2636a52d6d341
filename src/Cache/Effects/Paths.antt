-- ===== src/Cache/Effects/Paths.antt =====
-- The effects of the operations by path.
use onedriver.Prelude.{String, Option, none, some, List, [], ◌∷◌, lookup}
use onedriver.Item.{Result, ok, fail}
use onedriver.Host.{Host}
use onedriver.World.{Ptr, World, pure, load}
use onedriver.World.Effects.{
  Effects, Respects, Respects-pure, Respects-bind, Respects-load, Respects-result, Respects-option,
  effect_rules,
}
use onedriver.Graph.{AuthRef}
use onedriver.Cache.Effects.{
  get_id-Respects, insert_id-Respects, delete_id-Respects, set_parent-Respects,
}
use onedriver.Cache.Effects.Children.{get_children_id-Respects}
use onedriver.Cache.Children.{get_children_id}
use onedriver.Cache.Paths.{
  missing, walk, get_path, delete_found, delete_path, insert_under, insert_path, restore,
  move_found, move_path,
}

module _ {host : Host} {R : World host → World host → Type 0} (e : Effects host R) where
  pub walk-Respects :
      (auth : AuthRef) (last : String) (inode : Option Ptr) (seen parts : List String)
      → Respects R (walk host auth last inode seen parts)
  unfolding walk
  walk-Respects auth last inode seen [] = search (effect_rules, e)
  walk-Respects auth last inode seen (part ∷ parts) =
      Respects-bind e (get_children_id host last auth) _ (get_children_id-Respects e last auth)
        (λ children.
          Respects-result e children (λ err. pure (fail err)) _ (λ err. Respects-pure e (fail err))
            (λ found.
              Respects-option e (lookup part found) (pure (missing host (part ∷ seen))) _
                (Respects-pure e (missing host (part ∷ seen)))
                (λ p.
                  Respects-bind e (load p) _ (Respects-load e p)
                    (λ child. walk-Respects auth child.id (some p) (part ∷ seen) parts))))

  pub get_path-Respects : (path : String) (auth : AuthRef) → Respects R (get_path host path auth)
  unfolding get_path
  get_path-Respects path auth = search (effect_rules, e, get_id-Respects, walk-Respects)

  delete_found-Respects : (found : Result (Option Ptr)) → Respects R (delete_found host found)
  unfolding delete_found
  delete_found-Respects (ok (some p)) = search (effect_rules, e, delete_id-Respects)
  delete_found-Respects (ok none) = search (effect_rules, e)
  delete_found-Respects (fail err) = search (effect_rules, e)

  delete_path-Respects : (key : String) → Respects R (delete_path host key)
  unfolding delete_path
  delete_path-Respects key = search (effect_rules, e, get_path-Respects, delete_found-Respects)

  insert_under-Respects :
      (p : Ptr) (found : Result (Option Ptr)) → Respects R (insert_under host p found)
  unfolding insert_under
  insert_under-Respects p (fail err) = search (effect_rules, e)
  insert_under-Respects p (ok none) = search (effect_rules, e)
  insert_under-Respects p (ok (some q)) =
      search (effect_rules, e, set_parent-Respects, insert_id-Respects) depth 9

  insert_path-Respects :
      (key : String) (auth : AuthRef) (p : Ptr) → Respects R (insert_path host key auth p)
  unfolding insert_path
  insert_path-Respects key auth p =
      search (effect_rules, e, get_path-Respects, insert_under-Respects)

  restore-Respects :
      (old : String) (auth : AuthRef) (p : Ptr) (err : Option String)
      → Respects R (restore host old auth p err)
  unfolding restore
  restore-Respects old auth p none = search (effect_rules, e)
  restore-Respects old auth p (some err) = search (effect_rules, e, insert_path-Respects)

  move_found-Respects :
      (old new : String) (auth : AuthRef) (found : Result (Option Ptr))
      → Respects R (move_found host old new auth found)
  unfolding move_found
  move_found-Respects old new auth (fail err) = search (effect_rules, e)
  move_found-Respects old new auth (ok inode) =
      search (effect_rules, e, delete_path-Respects, insert_path-Respects, restore-Respects) depth
        12

  pub move_path-Respects :
      (old new : String) (auth : AuthRef) → Respects R (move_path host old new auth)
  unfolding move_path
  move_path-Respects old new auth = search (effect_rules, e, get_path-Respects, move_found-Respects)
