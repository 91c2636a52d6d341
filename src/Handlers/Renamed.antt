-- ===== src/Handlers/Renamed.antt =====
-- What a Rename that succeeds has done, on the server first and then in the cache.
use onedriver.Prelude.{String, Option, none, some, ◌≡◌, refl, ap, ◌∙◌, subst, path_join}
use onedriver.Item.{Result, ok, fail}
use onedriver.Host.{Host}
use onedriver.World.{Ptr, World, done, pure, ◌>>=◌, load, deref}
use onedriver.World.Inversion.{and_then-eq-done, checked_only}
use onedriver.Graph.{shared_auth}
use onedriver.Cache.Children.{get_child}
use onedriver.Cache.Named.{IsNamed, get_child-IsNamed}
use onedriver.Remote.{remote_id}
use onedriver.Open.{success}
use onedriver.World.Effects.{Effects}
use onedriver.World.Mode.{at-done}
use onedriver.Handlers.Effects.{cache_path-Respects}
use onedriver.Cache.{get_id}
use onedriver.Handlers.{leading_slash, rename_item, result_of, cache_path, rename}
use onedriver.Handlers.Accepted.{IsRenamed, rename_item-IsRenamed}

module _ (host : Host) where
  -- go-fuse's tree is the same: within a handler nothing moves in it.
  abbrev SameTree : World host → World host → Type 0
  SameTree v w = w.fuse_path ≡ v.fuse_path

  SameTree-Effects : Effects host SameTree
  SameTree-Effects = record {
    stays = λ w. refl;
    chains = λ u v w h g. cc;
    heap = λ w heap. refl;
    alloc = λ w heap. refl;
    metadata = λ w entries. refl;
    clock = λ w. refl;
    random = λ w. refl;
    sending = λ w r. refl;
    auth = λ w a. refl;
    token_file = λ w files. refl;
    drive_type = λ w t. refl;
    content = λ w b. refl;
    queue = λ w s. refl;
  }

  cache_path-done :
      (p : Ptr) (v u : World host) (path : String)
      → cache_path host p v ≡ done path u
      → (path ≡ leading_slash (v.fuse_path p)) × (u.fuse_path ≡ v.fuse_path)
  unfolding cache_path
  cache_path-done p v u path h =
      let same =
        at-done SameTree (cache_path host p) v (cache_path-Respects SameTree-Effects p) h in
      let (root, x, _, rest) =
        and_then-eq-done (get_id host v.root v)
          (λ found. do r ← deref found; pure (leading_slash (v.fuse_path p))) h in
      (only_path root x rest, same)
    where
      only_path :
          (root : Option Ptr) (x : World host)
          → (do r ← deref root; pure (leading_slash (v.fuse_path p))) x ≡ done path u
          → path ≡ leading_slash (v.fuse_path p)
      only_path none x h = cc
      only_path (some r) x h = cc

  -- The child of that name, under the id that it has or gets, is renamed.
  abbrev pub ChildIsRenamed : String → String → String → World host → Type 0
  ChildIsRenamed name path dest w =
      (child : Ptr) × (u v : World host) × (id : String) × IsNamed host name child u
      × (remote_id host child u ≡ done (id, none) v)
      × IsRenamed host id path dest w

  rename_child-IsRenamed :
      (path dest name : String) (child : Ptr) (u w : World host)
      → IsNamed host name child u
      → (do id ← remote_id host child; rename_item host path dest id) u ≡ done success w
      → ChildIsRenamed name path dest w
  rename_child-IsRenamed path dest name child u w named h =
      let ((id, err), v, run, rest) =
        and_then-eq-done (remote_id host child u) (rename_item host path dest) h in
      let (no_error, is) = rename_item-IsRenamed host path dest id err v w rest in
      (
        child,
        u,
        v,
        id,
        named,
        subst (λ o. remote_id host child u ≡ done (id, o) v) no_error run,
        is,
      )

  rename_found-IsRenamed :
      (path dest parent name : String) (found : Result Ptr) (v u w : World host)
      → get_child host parent name shared_auth v ≡ done found u
      → (do
        child ← deref (result_of host found)
        id ← remote_id host child
        rename_item host path dest id)
          u
        ≡ done success w
      → ChildIsRenamed name path dest w
  unfolding result_of
  rename_found-IsRenamed path dest parent name (fail err) v u w run h = cc
  rename_found-IsRenamed path dest parent name (ok child) v u w run h =
      rename_child-IsRenamed path dest name child u w
        (get_child-IsNamed host parent name shared_auth child v u run) h

  rename_below-IsRenamed :
      (path dest parent name : String) (v w : World host)
      → (do
        found ← get_child host parent name shared_auth
        child ← deref (result_of host found)
        id ← remote_id host child
        rename_item host path dest id)
          v
        ≡ done success w
      → ChildIsRenamed name path dest w
  rename_below-IsRenamed path dest parent name v w h =
      let (found, u, run, rest) =
        and_then-eq-done (get_child host parent name shared_auth v)
          (λ found. do
            child ← deref (result_of host found)
            id ← remote_id host child
            rename_item host path dest id)
          h in
      rename_found-IsRenamed path dest parent name found v u w run rest

  -- A Rename that succeeds has found a child of the old name, up to upper and lower case, whose id
  -- is one of the server, or was obtained; the server has accepted for that id the new name and a
  -- parent whose id is one of the server too. After that GetPath found an item at the old path,
  -- DeletePath took that path out of the cache, and InsertPath put the item below the new path, with
  -- the last part of the new path as its name, unless the old path ends in the same part. Both paths
  -- are below those that go-fuse has for the directories.
  pub rename-IsRenamed :
      (p : Ptr) (name : String) (q : Ptr) (new_name : String) (w w' : World host)
      → rename host p name q new_name w ≡ done success w'
      → ChildIsRenamed name
          (path_join (leading_slash (w.fuse_path p)) name)
          (path_join (leading_slash (w.fuse_path q)) new_name)
          w'
  unfolding rename
  rename-IsRenamed p name q new_name w w' h =
      let rest = λ (old new : String). (do
        i ← load p
        found ← get_child host i.id name shared_auth
        child ← deref (result_of host found)
        id ← remote_id host child
        rename_item host (path_join old name) (path_join new new_name) id) in
      let (old, u, run₁, h₁) =
        and_then-eq-done (cache_path host p w) (λ old. do new ← cache_path host q; rest old new)
          (checked_only (w.heap p).has_cache
            (do old ← cache_path host p; new ← cache_path host q; rest old new) w h) in
      let (new, v, run₂, h₂) = and_then-eq-done (cache_path host q u) (rest old) h₁ in
      let (old_same, tree) = cache_path-done p w u old run₁ in
      let (new_same, _) = cache_path-done q u v new run₂ in
      let is =
        rename_below-IsRenamed (path_join old name) (path_join new new_name) (v.heap p).id name v w'
          h₂ in
      let goal : (new ≡ leading_slash (w.fuse_path q)) =
        new_same ∙ ap (λ (f : Ptr → String). leading_slash (f q)) tree in
      subst
        (λ d.
          ChildIsRenamed name (path_join (leading_slash (w.fuse_path p)) name)
            (path_join d new_name) w')
        goal
        (subst (λ d. ChildIsRenamed name (path_join d name) (path_join new new_name) w') old_same
          is)
