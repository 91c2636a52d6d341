-- ===== src/Handlers/Accepted.antt =====
-- The end of a Rename that succeeds: the server accepts it, and the cache follows.
use onedriver.Prelude.{
  String, Bool, true, false, Option, none, some, ◌≡◌, refl, subst, ◌||◌, is_some, path_base,
  path_dir, if◌then◌else◌,
}
use onedriver.Item.{Result, ok, fail}
use onedriver.Host.{Host}
use onedriver.World.{Ptr, World, done, pure, ◌>>=◌}
use onedriver.World.Inversion.{and_then-eq-done}
use onedriver.Fields.{is_local_id}
use onedriver.Graph
use onedriver.Graph.{shared_auth}
use onedriver.Cache.Paths.{get_path, move_path}
use onedriver.Cache.Moved.{IsMoved, move_path-IsMoved}
use onedriver.Open.{success, ebadf}
use onedriver.Handlers.{renamed_local, renamed_remote, rename_under, rename_item}

module _ (host : Host) where
  -- The server has accepted a new name, the last part of `dest`, and a parent for an item, both
  -- with ids of the server. The cache has then found the item at `path`, which has the last part of
  -- `dest` for a name when it is put below `dest`, unless that is the last part of `path` as well.
  pub record IsRenamed (id path dest : String) (w : World host) : Type 0 where
    pub parent : String
    pub before : World host
    pub after : World host
    pub known : is_local_id id ≡ false
    pub parent_known : is_local_id parent ≡ false
    pub accepted : Graph.rename host id (path_base dest) parent shared_auth before ≡ done none after
    pub moved : IsMoved host path dest after w

  renamed_local-none :
      (err : Option String) (u w : World host)
      → pure (renamed_local host err) u ≡ done success w
      → (err ≡ none) × (u ≡ w)
  unfolding renamed_local
  renamed_local-none none u w h = (refl, cc)
  renamed_local-none (some err) u w h = cc

  renamed_remote-none :
      (path dest : String) (err : Option String) (v w : World host)
      → renamed_remote host path dest err v ≡ done success w
      → (err ≡ none) × (move_path host path dest shared_auth v ≡ done none w)
  unfolding renamed_remote
  renamed_remote-none path dest (some err) v w h = cc
  renamed_remote-none path dest none v w h =
      let (err, u, run, rest) =
        and_then-eq-done (move_path host path dest shared_auth v)
          (λ err. pure (renamed_local host err)) h in
      let (no_error, last) = renamed_local-none err u w rest in
      (
        refl,
        subst (λ x. move_path host path dest shared_auth v ≡ done none x) last
            (subst (λ o. move_path host path dest shared_auth v ≡ done o u) no_error run),
      )

  rename_parent :
      (id path dest parent : String) (local : Bool) (v w : World host)
      → is_local_id id ≡ false
      → is_local_id parent ≡ local
      → (if local then pure ebadf else (do
        err ← Graph.rename host id (path_base dest) parent shared_auth
        renamed_remote host path dest err))
          v
        ≡ done success w
      → IsRenamed id path dest w
  rename_parent id path dest parent true v w known is h = cc
  rename_parent id path dest parent false v w known is h =
      let (err, u, asked, rest) =
        and_then-eq-done (Graph.rename host id (path_base dest) parent shared_auth v)
          (renamed_remote host path dest) h in
      let (no_error, moved) = renamed_remote-none path dest err u w rest in
      record {
        parent = parent;
        before = v;
        after = u;
        known = known;
        parent_known = is;
        accepted =
            subst (λ o. Graph.rename host id (path_base dest) parent shared_auth v ≡ done o u)
              no_error asked;
        moved = move_path-IsMoved host path dest u w moved;
      }

  rename_under-IsRenamed :
      (id path dest : String) (found : Result (Option Ptr)) (v w : World host)
      → is_local_id id ≡ false
      → rename_under host id path dest found v ≡ done success w
      → IsRenamed id path dest w
  unfolding rename_under
  rename_under-IsRenamed id path dest (fail err) v w known h = cc
  rename_under-IsRenamed id path dest (ok none) v w known h = cc
  rename_under-IsRenamed id path dest (ok (some r)) v w known h =
      rename_parent id path dest (v.heap r).id (is_local_id (v.heap r).id) v w known refl h

  rename_known :
      (id path dest : String) (err : Option String) (local : Bool) (v w : World host)
      → is_local_id id ≡ local
      → (if local || is_some err then pure ebadf else (do
        parent ← get_path host (path_dir dest) shared_auth
        rename_under host id path dest parent))
          v
        ≡ done success w
      → (err ≡ none) × IsRenamed id path dest w
  rename_known id path dest err true v w is h = cc
  rename_known id path dest (some err) false v w is h = cc
  rename_known id path dest none false v w is h =
      let (parent, u, _, rest) =
        and_then-eq-done (get_path host (path_dir dest) shared_auth v)
          (rename_under host id path dest) h in
      (refl, rename_under-IsRenamed id path dest parent u w is rest)

  pub rename_item-IsRenamed :
      (path dest id : String) (err : Option String) (v w : World host)
      → rename_item host path dest (id, err) v ≡ done success w
      → (err ≡ none) × IsRenamed id path dest w
  unfolding rename_item
  rename_item-IsRenamed path dest id err v w h =
      rename_known id path dest err (is_local_id id) v w refl h
