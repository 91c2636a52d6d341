-- ===== src/Cache/Moved.antt =====
-- graph/cache.go: what a MovePath without an error has done.
use onedriver.Prelude.{
  String, Bool, true, false, Option, none, some, ◌≡◌, refl, subst, str_eq, path_base, if◌then◌else◌,
  ==_self,
}
use onedriver.Item.{Result, ok, fail}
use onedriver.Host.{Host}
use onedriver.World.{Ptr, World, done, pure, ◌>>=◌, ◌>>◌, modify}
use onedriver.World.Inversion.{and_then-eq-done}
use onedriver.Graph.{shared_auth}
use onedriver.Cache.Paths.{
  get_path, set_name, insert_path, restore, move_found, move_path, delete_path,
}

module _ (host : Host) where
  -- GetPath found an item at the old path, DeletePath took the old path out of the cache, and
  -- InsertPath put that item below the new path, under the last part of that as its name, unless the
  -- old path ends in the same part.
  pub record IsMoved (path dest : String) (v w : World host) : Type 0 where
    pub item : Ptr
    pub start : World host
    pub cut : World host
    pub named : World host
    pub found : get_path host path shared_auth v ≡ done (ok (some item)) start
    pub taken_out : delete_path host path start ≡ done tt cut
    pub renamed :
        str_eq (path_base path) (path_base dest) ≡ false → (named.heap item).name ≡ path_base dest
    pub inserted : insert_path host dest shared_auth item named ≡ done none w

  restore-none :
      (path : String) (p : Ptr) (err : Option String) (u w : World host)
      → restore host path shared_auth p err u ≡ done none w
      → (err ≡ none) × (u ≡ w)
  unfolding restore
  restore-none path p none u w h = (refl, cc)
  restore-none path p (some err) u w h =
      let (ignored, x, _, rest) =
        and_then-eq-done (insert_path host path shared_auth p _) (λ ignored. pure (some err)) h in
      cc

  named-inserted :
      (path dest : String) (p : Ptr) (u w : World host)
      → (do
        inserted ← insert_path host dest shared_auth p
        restore host path shared_auth p inserted)
          u
        ≡ done none w
      → insert_path host dest shared_auth p u ≡ done none w
  named-inserted path dest p u w h =
      let (err, x, run, rest) =
        and_then-eq-done (insert_path host dest shared_auth p u) (restore host path shared_auth p)
          h in
      let (no_error, last) = restore-none path p err x w rest in
      subst (λ y. insert_path host dest shared_auth p u ≡ done none y) last
        (subst (λ o. insert_path host dest shared_auth p u ≡ done o x) no_error run)

  move_named :
      (path dest : String) (p : Ptr) (same : Bool) (u w : World host)
      → (do
        if same then pure tt else modify p (set_name (path_base dest))
        inserted ← insert_path host dest shared_auth p
        restore host path shared_auth p inserted)
          u
        ≡ done none w
      → (x : World host) × (same ≡ false → (x.heap p).name ≡ path_base dest)
        × (insert_path host dest shared_auth p x ≡ done none w)
  move_named path dest p true u w h = (u, λ e. cc, named-inserted path dest p u w h)
  move_named path dest p false u w h = (_, λ e. (rw ==_self refl), named-inserted path dest p _ w h)

  move_found-IsMoved :
      (path dest : String) (found : Result (Option Ptr)) (v u w : World host)
      → get_path host path shared_auth v ≡ done found u
      → move_found host path dest shared_auth found u ≡ done none w
      → IsMoved path dest v w
  unfolding move_found
  move_found-IsMoved path dest (fail err) v u w run h = cc
  move_found-IsMoved path dest (ok none) v u w run h =
      let (_, x, _, rest) = and_then-eq-done (delete_path host path u) _ h in cc
  move_found-IsMoved path dest (ok (some p)) v u w run h =
      let (_, x, gone, rest) = and_then-eq-done (delete_path host path u) _ h in
      let (y, name, inserted) =
        move_named path dest p (str_eq (path_base path) (path_base dest)) x w rest in
      record {
        item = p;
        start = u;
        cut = x;
        named = y;
        found = run;
        taken_out = gone;
        renamed = name;
        inserted = inserted;
      }

  pub move_path-IsMoved :
      (path dest : String) (v w : World host)
      → move_path host path dest shared_auth v ≡ done none w
      → IsMoved path dest v w
  unfolding move_path
  move_path-IsMoved path dest v w h =
      let (found, u, run, rest) =
        and_then-eq-done (get_path host path shared_auth v) (move_found host path dest shared_auth)
          h in
      move_found-IsMoved path dest found v u w run rest
