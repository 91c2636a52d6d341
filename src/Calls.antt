-- ===== src/Calls.antt =====
-- graph/inode.go: the calls of the kernel, which go-fuse hands to the handlers in any order.
pub mod Mode
pub mod Session
use onedriver.Prelude.{ℕ, String, List, [], ◌∷◌}
use onedriver.Item.{Bytes}
use onedriver.Host.{Host}
use onedriver.World.{Ptr, World, M, done, pure, ◌>>=◌, ◌>>◌}
use onedriver.Cache.Children.{Children}
use onedriver.Statfs.{stat_fs}
use onedriver.Open.{open_file}
use onedriver.File.{SetAttrIn, read, write, get_attr, set_attr, fsync, flush}
use onedriver.Handlers.{look_up, read_dir, create, make_dir, unlink, rmdir, rename}

-- The methods of Inode that serve the kernel, with the inode that is asked and the arguments.
-- Readdir has the order in which its range goes through the children.
pub data Call : Type 0 where
  statfs_call getattr_call fsync_call flush_call : Ptr → Call
  readdir_call : Ptr → (Children → Children) → Call
  lookup_call mkdir_call unlink_call rmdir_call : Ptr → String → Call
  open_call : Ptr → ℕ → Call
  read_call : Ptr → ℕ → ℕ → Call
  write_call : Ptr → Bytes → ℕ → Call
  setattr_call : Ptr → SetAttrIn → Call
  create_call : Ptr → String → ℕ → Call
  rename_call : Ptr → String → Ptr → String → Call

module _ (host : Host) where
  -- The answer goes to the kernel.
  abbrev answered : {A : Type 0} → M host A → M host (Unit {0})
  answered m = do answer ← m; pure tt

  unfoldable pub run_call : Call → M host (Unit {0})
  run_call (statfs_call p) = answered (stat_fs host p)
  run_call (readdir_call p order) = answered (read_dir host p order)
  run_call (getattr_call p) = answered (get_attr host p)
  run_call (fsync_call p) = answered (fsync host p)
  run_call (flush_call p) = answered (flush host p)
  run_call (lookup_call p name) = answered (look_up host p name)
  run_call (mkdir_call p name) = answered (make_dir host p name)
  run_call (unlink_call p name) = answered (unlink host p name)
  run_call (rmdir_call p name) = answered (rmdir host p name)
  run_call (open_call p flags) = answered (open_file host p flags)
  run_call (read_call p count off) = answered (read host p count off)
  run_call (write_call p bytes off) = answered (write host p bytes off)
  run_call (setattr_call p new) = answered (set_attr host p new)
  run_call (create_call p name mode) = answered (create host p name mode)
  run_call (rename_call p name q new_name) = answered (rename host p name q new_name)

  -- The world with go-fuse's tree at the time of a call.
  abbrev pub with_tree : (Ptr → String) → World host → World host
  with_tree tree w = record w { fuse_path = tree }

  abbrev modify_tree : (Ptr → String) → M host (Unit {0})
  modify_tree tree w = done tt (with_tree tree w)

  -- Calls one after the other. Between two of them go-fuse adds, moves and forgets nodes, so each
  -- comes with the tree that go-fuse has by then.
  unfoldable pub run_calls : List ((Ptr → String) × Call) → M host (Unit {0})
  run_calls [] = pure tt
  run_calls ((tree, call) ∷ calls) = do modify_tree tree; run_call call; run_calls calls
