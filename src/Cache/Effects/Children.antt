-- ===== src/Cache/Effects/Children.antt =====
-- The effects of listing the children of a directory.
use onedriver.Prelude.{String, Option, none, some, List, [], ◌∷◌, str_eq}
use onedriver.Item.{Result, ok, fail, Bytes, DriveItem}
use onedriver.Host.{Host}
use onedriver.World.{Ptr, World, pure, load}
use onedriver.World.Effects.{
  Effects, Respects, Respects-pure, Respects-bind, Respects-load, Respects-if, effect_rules,
}
use onedriver.Graph.{AuthRef}
use onedriver.Graph.Effects.{request-Respects}
use onedriver.Cache.Effects.{get_id-Respects, store_metadata-Respects}
use onedriver.Cache.Children.{
  Children, enter, collect, adopt, fetched, children_of, list_found, get_children_id, find_child,
  find_among, get_child, to_lower,
}

module _ {host : Host} {R : World host → World host → Type 0} (e : Effects host R) where
  enter-Respects : (o : Option Ptr) (found : Children) → Respects R (enter host o found)
  unfolding enter
  enter-Respects none found = search (effect_rules, e)
  enter-Respects (some p) found = search (effect_rules, e)

  collect-Respects : (ids : List String) (found : Children) → Respects R (collect host ids found)
  unfolding collect
  collect-Respects [] found = search (effect_rules, e)
  collect-Respects (id ∷ ids) found =
      search (effect_rules, e, get_id-Respects, enter-Respects, collect-Respects ids)

  adopt-Respects :
      (parent : Ptr) (items : List DriveItem) (found : Children)
      → Respects R (adopt host parent items found)
  unfolding adopt
  adopt-Respects parent [] found = search (effect_rules, e)
  adopt-Respects parent (item ∷ items) found =
      search (effect_rules, e, store_metadata-Respects, adopt-Respects parent items) depth 9

  fetched-Respects : (p : Ptr) (body : Result Bytes) → Respects R (fetched host p body)
  unfolding fetched
  fetched-Respects p (fail err) = search (effect_rules, e)
  fetched-Respects p (ok body) = search (effect_rules, e, adopt-Respects) depth 9

  children_of-Respects :
      (id : String) (p : Ptr) (auth : AuthRef) (listed : Option (List String))
      → Respects R (children_of host id p auth listed)
  unfolding children_of
  children_of-Respects id p auth (some ids) = search (effect_rules, e, collect-Respects)
  children_of-Respects id p auth none = search (effect_rules, e, request-Respects, fetched-Respects)

  list_found-Respects :
      (id : String) (auth : AuthRef) (found : Option Ptr)
      → Respects R (list_found host id auth found)
  unfolding list_found
  list_found-Respects id auth none = search (effect_rules, e)
  list_found-Respects id auth (some p) = search (effect_rules, e, children_of-Respects)

  pub get_children_id-Respects :
      (id : String) (auth : AuthRef) → Respects R (get_children_id host id auth)
  unfolding get_children_id
  get_children_id-Respects id auth = search (effect_rules, e, get_id-Respects, list_found-Respects)

  find_child-Respects :
      (name : String) (children : Children) → Respects R (find_child host name children)
  unfolding find_child
  find_child-Respects name [] = search (effect_rules, e)
  find_child-Respects name ((key, p) ∷ children) =
      Respects-bind e (load p) _ (Respects-load e p) (λ i.
        Respects-if e (str_eq (to_lower host i.name) (to_lower host name)) (pure (ok p))
          (find_child host name children) (Respects-pure e (ok p))
          (find_child-Respects name children))

  find_among-Respects :
      (name : String) (children : Result Children) → Respects R (find_among host name children)
  unfolding find_among
  find_among-Respects name (fail err) = search (effect_rules, e)
  find_among-Respects name (ok found) = find_child-Respects name found

  pub get_child-Respects :
      (id name : String) (auth : AuthRef) → Respects R (get_child host id name auth)
  unfolding get_child
  get_child-Respects id name auth =
      search (effect_rules, e, get_children_id-Respects, find_among-Respects)
