-- ===== src/Calls/Mode.antt =====
-- What no call of the kernel changes.
use onedriver.Prelude.{ℕ, String, ◌≡◌, refl, List, [], ◌∷◌}
use onedriver.Host.{Host}
use onedriver.World.{Ptr, UploadSession, World, done}
use onedriver.World.Mode.{Mode, Same, Same-Effects, at-done}
use onedriver.World.Effects.{Effects, Respects, Respects-bind, effect_rules}
use onedriver.Upload.Chunks.{Ended, upload}
use onedriver.Upload.Chunks.Effects.{upload-Respects}
use onedriver.Statfs.Effects.{stat_fs-Respects}
use onedriver.Open.Effects.{open_file-Respects}
use onedriver.File.Effects.{
  read-Respects, write-Respects, get_attr-Respects, set_attr-Respects, fsync-Respects,
  flush-Respects,
}
use onedriver.Handlers.Effects.{
  look_up-Respects, read_dir-Respects, create-Respects, make_dir-Respects, unlink-Respects,
  rename-Respects,
}
use onedriver.Calls.{
  Call, with_tree, run_call, run_calls, statfs_call, readdir_call, getattr_call, fsync_call,
  flush_call, lookup_call, mkdir_call, unlink_call, rmdir_call, open_call, read_call, write_call,
  setattr_call, create_call, rename_call,
}

module _ {host : Host} {R : World host → World host → Type 0} (e : Effects host R) where
  pub run_call-Respects : (call : Call) → Respects R (run_call host call)
  unfolding run_call
  run_call-Respects (statfs_call p) = search (effect_rules, e, stat_fs-Respects)
  run_call-Respects (readdir_call p order) = search (effect_rules, e, read_dir-Respects)
  run_call-Respects (getattr_call p) = search (effect_rules, e, get_attr-Respects)
  run_call-Respects (fsync_call p) = search (effect_rules, e, fsync-Respects)
  run_call-Respects (flush_call p) = search (effect_rules, e, flush-Respects)
  run_call-Respects (lookup_call p name) = search (effect_rules, e, look_up-Respects)
  run_call-Respects (mkdir_call p name) = search (effect_rules, e, make_dir-Respects)
  run_call-Respects (unlink_call p name) = search (effect_rules, e, unlink-Respects)
  run_call-Respects (rmdir_call p name) = search (effect_rules, e, unlink-Respects)
  run_call-Respects (open_call p flags) = search (effect_rules, e, open_file-Respects)
  run_call-Respects (read_call p count off) = search (effect_rules, e, read-Respects)
  run_call-Respects (write_call p bytes off) = search (effect_rules, e, write-Respects)
  run_call-Respects (setattr_call p new) = search (effect_rules, e, set_attr-Respects)
  run_call-Respects (create_call p name mode) = search (effect_rules, e, create-Respects)
  run_call-Respects (rename_call p name q new_name) = search (effect_rules, e, rename-Respects)

  run_calls-Respects :
      ((tree : Ptr → String) (w : World host) → R w (with_tree host tree w))
      → (calls : List ((Ptr → String) × Call)) → Respects R (run_calls host calls)
  unfolding run_calls
  run_calls-Respects grows [] = search (effect_rules, e)
  run_calls-Respects grows ((tree, call) ∷ calls) =
      Respects-bind e {A = Unit {0}} (λ w. done tt (with_tree host tree w)) _
        (record { at = λ w. grows tree w })
        (λ _.
          Respects-bind e (run_call host call) _ (run_call-Respects call)
            (λ _. run_calls-Respects grows calls))

module _ {host : Host} {A : Type 0} (view : Mode host → A) where
  pub run_call-Same :
      (call : Call) (v w : World host) → run_call host call v ≡ done tt w → Same view v w
  run_call-Same call v w run =
      at-done (Same view) (run_call host call) v (run_call-Respects (Same-Effects view) call) run

  pub upload-Same :
      (fuel : ℕ) (s : UploadSession) (v w : World host) (ended : Ended)
      → upload host fuel s v ≡ done ended w
      → Same view v w
  upload-Same fuel s v w ended run =
      at-done (Same view) (upload host fuel s) v (upload-Respects (Same-Effects view) fuel s) run

-- No sequence of calls of the kernel that ends, whatever go-fuse does to its tree between them,
-- brings the file system online or offline, moves its root or the link of its next poll, or writes
-- metadata or that link to the database.
pub run_calls-Same :
    (host : Host) (calls : List ((Ptr → String) × Call)) (v w : World host)
    → run_calls host calls v ≡ done tt w
    → Same (λ m. m) v w
run_calls-Same host calls v w run =
    at-done (Same (λ m. m)) (run_calls host calls) v
      (run_calls-Respects (Same-Effects (λ m. m)) (λ tree u. refl) calls) run
