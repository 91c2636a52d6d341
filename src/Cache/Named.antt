-- ===== src/Cache/Named.antt =====
-- GetChild: the child that it finds has the name.
use onedriver.Prelude.{
  String, Bool, true, false, [], ◌∷◌, ◌≡◌, refl, inl, inr, ◌⊎◌, str_eq, subst, if◌then◌else◌,
}
use onedriver.Item.{Result, ok, fail}
use onedriver.Host.{Host}
use onedriver.World.{Ptr, World, M, done, pure}
use onedriver.World.Inversion.{and_then-eq-done}
use onedriver.Graph.{AuthRef}
use onedriver.Cache.Children.{
  Children, to_lower, find_child, find_among, get_child, get_children_id,
}

module _ (host : Host) where
  -- An inode whose name is this one, up to upper and lower case.
  abbrev pub IsNamed : String → Ptr → World host → Type 0
  IsNamed name q u = str_eq (to_lower host (u.heap q).name) (to_lower host name) ≡ true

  found_here :
      (b : Bool) (p q : Ptr) (rest : M host (Result Ptr)) (w u : World host)
      → (if b then pure (ok p) else rest) w ≡ done (ok q) u
      → ((b ≡ true) × (p ≡ q) × (w ≡ u)) ⊎ (rest w ≡ done (ok q) u)
  found_here true p q rest w u h = inl (refl, cc, cc)
  found_here false p q rest w u h = inr h

  find_child-IsNamed :
      (name : String) (children : Children) (q : Ptr) (w u : World host)
      → find_child host name children w ≡ done (ok q) u
      → IsNamed name q u
  unfolding find_child
  find_child-IsNamed name [] q w u h = cc
  find_child-IsNamed name ((key, p) ∷ children) q w u h =
      elim (found_here (str_eq (to_lower host (w.heap p).name) (to_lower host name)) p q
        (find_child host name children) w u h) [
          | inl (named, same, world) ↦
              subst (λ v. IsNamed name q v) world (subst (λ r. IsNamed name r w) same named)
          | inr later ↦ find_child-IsNamed name children q w u later
        ]

  find_among-IsNamed :
      (name : String) (children : Result Children) (q : Ptr) (v u : World host)
      → find_among host name children v ≡ done (ok q) u
      → IsNamed name q u
  unfolding find_among
  find_among-IsNamed name (fail err) q v u h = cc
  find_among-IsNamed name (ok found) q v u h = find_child-IsNamed name found q v u h

  pub get_child-IsNamed :
      (id name : String) (auth : AuthRef) (q : Ptr) (w u : World host)
      → get_child host id name auth w ≡ done (ok q) u
      → IsNamed name q u
  unfolding get_child
  get_child-IsNamed id name auth q w u h =
      let (children, v, _, rest) =
        and_then-eq-done (get_children_id host id auth w) (find_among host name) h in
      find_among-IsNamed name children q v u rest
