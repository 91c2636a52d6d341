-- ===== src/Main/Mounts.antt =====
-- When the command mounts a file system, and when it ends before.
use onedriver.Prelude.{
  arith, String, Bool, Option, none, true, false, ◌||◌, some, List, [], ◌∷◌, ◌++◌, ◌≡◌, ◌≢◌, refl,
  ap, ◌∙◌, subst, inl, inr, if◌then◌else◌, Bool-cases, path_join,
}
use onedriver.Host.{Host}
use onedriver.System.{System}
use onedriver.World.{Ptr, M, pure, ◌>>=◌, World, done}
use onedriver.World.Inversion.{and_then-eq-done}
use onedriver.Start.{new_fs}
use onedriver.Auth.Start.{authenticate}
use onedriver.Main.{
  Options, Action, Run, make_missing, print_version, exited, served, data_dir, wipe, removed, stop,
  mount_at, mount_found, create_volume_info, auth_file, serve, run_args, run_main,
}

module _ (host : Host) (system : System) where
  -- What is true of a run that serves a file system: it has one argument, NewFS has found a root in
  -- the database and with the tokens of its directory, the volume info was dealt with, and the mount
  -- succeeds.
  pub record Mounts (o : Options) (args : List String) (w w' : World host) : Type 0 where
    pub point : String
    pub one : args ≡ point ∷ []
    pub root : Ptr
    pub built : World host
    pub found :
        new_fs host system
          (path_join (data_dir system o) "onedriver.db")
          (path_join (data_dir system o) auth_file)
          w
        ≡ done (some root) built
    pub informed : create_volume_info host system root built ≡ done tt w'
    pub mounted : system.mounts point ≡ true

  mount_at-mounts :
      (point : String) (w : World host) {actions : List Action} {w' : World host}
      → mount_at host system point w ≡ done (actions, served) w'
      → (system.mounts point ≡ true) × (w ≡ w')
  unfolding mount_at
  mount_at-mounts point w h = elim (Bool-cases (system.mounts point)) [
    | inl up ↦ (up, (let e = (rw up at h) in cc))
    | inr down ↦ (let e = (rw down at h) in cc)
  ]

  mount_found-Mounts :
      (o : Options) (point : String) (found : Option Ptr) (w v : World host) {actions : List Action}
      {w' : World host}
      → new_fs host system
          (path_join (data_dir system o) "onedriver.db")
          (path_join (data_dir system o) auth_file)
          w
        ≡ done found v
      → mount_found host system point found v ≡ done (actions, served) w'
      → Mounts o (point ∷ []) w w'
  unfolding mount_found
  mount_found-Mounts o point none w v made h = cc
  mount_found-Mounts o point (some root) w v made h =
      let (_, u, informed, rest) =
        and_then-eq-done (create_volume_info host system root v) (λ _. mount_at host system point)
          h in
      let (up, same) = mount_at-mounts point u rest in
      record {
        point = point;
        one = refl;
        root = root;
        built = v;
        found = made;
        informed = subst (λ x. create_volume_info host system root v ≡ done tt x) same informed;
        mounted = up;
      }

  prefixed :
      (before : List Action) (run : Run) (u : World host) {actions : List Action} {w' : World host}
      → pure {A = Run} (before ++ run.0, run.1) u ≡ done (actions, served) w'
      → (run.1 ≡ served) × (u ≡ w')
  prefixed before run u h = (cc, cc)

  run_args-Mounts :
      (o : Options) (args : List String) (w : World host) {actions : List Action} {w' : World host}
      → run_args host system o args w ≡ done (actions, served) w'
      → Mounts o args w w'
  unfolding run_args serve
  run_args-Mounts o [] w h = cc
  run_args-Mounts o (first ∷ second ∷ rest) w h = cc
  run_args-Mounts o (point ∷ []) w h =
      let dir = data_dir system o in
      let (found, v, made, rest) =
        and_then-eq-done
          (new_fs host system (path_join dir "onedriver.db") (path_join dir auth_file) w)
          (λ found. do
            run ← mount_found host system point found
            pure {A = Run} (make_missing system o ++ run.0, run.1))
          h in
      let (run, u, mounts, end) =
        and_then-eq-done (mount_found host system point found v)
          (λ run. pure {A = Run} (make_missing system o ++ run.0, run.1)) rest in
      let (serves, same) = prefixed (make_missing system o) run u end in
      mount_found-Mounts o point found w v {actions = run.0} made
        (mounts ∙ ap (λ e. done (run.0, e) u) serves ∙ ap (λ x. done (run.0, served) x) same)

  -- A run of two branches that does not end as the first.
  second_branch :
      {A : Type 0} (b : Bool) (m n : M host A) (w : World host) {a : A} {w' : World host}
      → (if b then m else n) w ≡ done a w'
      → m w ≢ done a w'
      → (b ≡ false) × (n w ≡ done a w')
  second_branch true m n w h other = absurd (other h)
  second_branch false m n w h other = (refl, h)

  stop-exits :
      (o : Options) (w : World host) {actions : List Action} {w' : World host}
      → stop host system o w ≢ done (actions, served) w'
  unfolding stop
  stop-exits o w h =
      let left = if o.wipe_cache then removed system (data_dir system o) else system in
      let log_in = authenticate host left (path_join (data_dir system o) auth_file) in
      let (_, v, _, rest) =
        and_then-eq-done ((if o.auth_only then log_in else pure tt) w)
          (λ _. pure (wipe system o, exited 0)) h in
      cc

  -- A run that serves a file system was told neither to print its version, nor to wipe its cache,
  -- nor to authenticate only; it has one argument, at which the mount succeeds, and before it NewFS
  -- has found a root, with the database and the tokens of its directory, and the volume info was
  -- dealt with, which leaves the world in which the run serves.
  pub run_main-Mounts :
      (o : Options) (w : World host) {actions : List Action} {w' : World host}
      → run_main host system o w ≡ done (actions, served) w'
      → (o.version ≡ false) × (o.wipe_cache ≡ false) × (o.auth_only ≡ false) × Mounts o o.args w w'
  unfolding run_main
  run_main-Mounts o w h =
      let (quiet, h₁) =
        second_branch o.version (pure (print_version ∷ [], exited 0)) _ w h (λ e. cc) in
      let (kept, h₂) =
        second_branch (o.wipe_cache || o.auth_only) (stop host system o) _ w h₁ (stop-exits o w) in
      (quiet, ground arith, ground arith, run_args-Mounts o o.args w h₂)
