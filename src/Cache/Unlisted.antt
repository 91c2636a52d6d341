-- ===== src/Cache/Unlisted.antt =====
-- GetChildrenID of a directory that lists one child in the cache asks no server, whatever it holds:
-- that is what a first child below a directory that was never listed leaves.
use onedriver.Prelude.{String, Bool, true, some, [], ◌∷◌, ◌≡◌, refl, lookup, insert}
use onedriver.Item.{ok}
use onedriver.Host.{Host}
use onedriver.World.{Inode, Ptr, World, done}
use onedriver.Fields.{is_dir, get_mode}
use onedriver.Graph.{AuthRef}
use onedriver.Cache.{add_child}
use onedriver.Cache.Lookup.{get_id_hit}
use onedriver.Cache.Children.{to_lower, enter, collect, children_of, list_found, get_children_id}

pub is_dir-add_child :
    (id : String) (directory : Bool) (i : Inode) → is_dir (add_child id directory i) ≡ is_dir i
unfolding is_dir get_mode add_child
is_dir-add_child id directory i = refl

module _ (host : Host) where
  -- A listing of one child that is in the cache needs no request.
  pub list_one :
      (parent id : String) (q p : Ptr) (auth : AuthRef) (w : World host)
      → lookup parent w.metadata ≡ some q
      → lookup id w.metadata ≡ some p
      → is_dir (w.heap q) ≡ true
      → (w.heap q).children ≡ some (id ∷ [])
      → get_children_id host parent auth w ≡ done (ok ((to_lower host (w.heap p).name, p) ∷ [])) w
  unfolding get_children_id list_found children_of collect enter insert
  list_one parent id q p auth w hq hp directory listing =
      simp (get_id_hit host parent w hq, directory, listing, get_id_hit host id w hp)
