-- ===== src/Main.antt =====
-- cmd/onedriver/main.go and graph/signal_handlers.go: the command.
pub mod Mounts
use Prim.Native.String.{◌++◌}
use onedriver.Prelude.{
  ℕ, ◌+◌, String, Bool, false, ◌||◌, Option, none, some, List, [], ◌∷◌, ◌++◌ as append_list,
  if◌then◌else◌, str_eq, path_join, clean_path, starts_with,
}
use onedriver.Item.{Bytes, Result, ok, fail, DriveItem}
use onedriver.Host.{Host}
use onedriver.System.{System}
use onedriver.World.{Ptr, M, exit, panic, pure, ◌>>=◌, ◌>>◌, modify, load}
use onedriver.Fields.{new_inode}
use onedriver.Auth.Start.{authenticate}
use onedriver.Graph.{shared_auth, get_user, put, resource_path}
use onedriver.Cache.{insert_id}
use onedriver.Cache.Paths.{get_path}
use onedriver.Remote.{need_cache}
use onedriver.Start.{cache_dir, new_fs}

-- The command line, as pflag has parsed it.
pub record Options : Type 0 where
  pub auth_only : Bool
  pub wipe_cache : Bool
  pub version : Bool
  pub cache_dir : String
  pub args : List String

-- What main itself asks of the host, in order. The database and the tokens, which NewFS and
-- Authenticate write, are parts of the world.
pub data Action : Type 0 where
  print_version print_usage : Action
  remove_all make_dir mount : String → Action

-- How it ends: with a status, or serving a mounted file system until it is unmounted.
pub data Ending : Type 0 where
  exited : ℕ → Ending
  served : Ending

abbrev pub Run : Type 0
Run = List Action × Ending

abbrev pub auth_file : String
auth_file = "auth_tokens.json"

abbrev pub volume_info : String
volume_info = "/.xdg-volume-info"

-- The directory for the database and the tokens.
unfoldable pub data_dir : System → Options → String
data_dir system o = if str_eq o.cache_dir "" then cache_dir system else o.cache_dir

-- The first actions: the cache is removed where that is asked for, and made where it is missing.
unfoldable pub wipe : System → Options → List Action
wipe system o = if o.wipe_cache then remove_all (data_dir system o) ∷ [] else []

unfoldable pub make_missing : System → Options → List Action
make_missing system o =
    if system.exists (data_dir system o) then [] else make_dir (data_dir system o) ∷ []

-- Whether a path lies in a directory.
abbrev pub lies_in : String → String → Bool
lies_in dir path = str_eq path dir || starts_with path (dir ++ "/")

-- What is there once a directory was removed.
abbrev pub removed : System → String → System
removed system dir =
    if system.removes dir
    then record system {
      exists = λ path. if lies_in (clean_path dir) path then false else system.exists path;
      read_file = λ path. if lies_in (clean_path dir) path then none else system.read_file path;
    }
    else system

-- The text of the volume info for a user.
unfoldable pub volume_text : System → String → String
volume_text system user =
    let text = "[Volume Info]\nName=" ++ user ++ "\n" in
    if system.exists "/usr/share/icons/onedriver.png"
    then text ++ "IconFile=/usr/share/icons/onedriver.png\n"
    else text

module _ (host : Host) (system : System) where
  -- The body that Put gives back: nil with an error.
  body_of : Result Bytes → Bytes
  body_of (ok body) = body
  body_of (fail err) = []

  insert_parsed : Ptr → Result DriveItem → M host (Unit {0})
  insert_parsed p (fail err) = pure tt
  insert_parsed p (ok item) = do modify p (λ i. record i { item = item }); insert_id host item.id p

  upload_info : Ptr → Result String → M host (Unit {0})
  unfolding body_of insert_parsed
  upload_info root (fail err) = pure tt
  upload_info root (ok user) = do
    resp ←
        put host (resource_path volume_info ++ ":/content") shared_auth
          (host.bytes_of (volume_text system user))
    p ← new_inode host ".xdg-volume-info" 0o644 (some root)
    i ← load p
    insert_parsed p (host.unmarshal_item (body_of resp) i.item)

  missing_info : Ptr → Result (Option Ptr) → M host (Unit {0})
  unfolding upload_info
  missing_info root (ok (some p)) = pure tt
  missing_info root (ok none) = do user ← get_user host shared_auth; upload_info root user
  missing_info root (fail err) = do user ← get_user host shared_auth; upload_info root user

  -- The volume info is uploaded where GetPath does not find it.
  unfoldable pub create_volume_info : Ptr → M host (Unit {0})
  unfolding missing_info
  create_volume_info root = do
    need_cache host root
    found ← get_path host volume_info shared_auth
    missing_info root found

  -- fs.Mount, and serving until the end; a mount that fails ends the process.
  unfoldable pub mount_at : String → M host Run
  mount_at point = if system.mounts point then pure (mount point ∷ [], served) else (λ w. exit)

  -- What follows NewFS; without a root it panics.
  unfoldable pub mount_found : String → Option Ptr → M host Run
  mount_found point none = λ w. panic
  mount_found point (some root) = do create_volume_info root; mount_at point

  -- The missing directory is made, and the file system is built and mounted.
  unfoldable pub serve : Options → String → M host Run
  serve o point = do
    let dir = data_dir system o
    found ← new_fs host system (path_join dir "onedriver.db") (path_join dir auth_file)
    run ← mount_found point found
    pure (append_list (make_missing system o) run.0, run.1)

  -- The part of main behind the options that end it; there must be one argument.
  unfoldable pub run_args : Options → List String → M host Run
  run_args o (mountpoint ∷ []) = serve o mountpoint
  run_args o [] = pure (print_usage ∷ [], exited 1)
  run_args o (first ∷ second ∷ rest) = pure (print_usage ∷ [], exited 1)

  -- The options that end the program.
  unfoldable pub stop : Options → M host Run
  stop o = do
    let left = if o.wipe_cache then removed system (data_dir system o) else system
    let log_in = authenticate host left (path_join (data_dir system o) auth_file)
    if o.auth_only then log_in else pure tt
    pure (wipe system o, exited 0)

  -- main
  unfoldable pub run_main : Options → M host Run
  run_main o =
      let go = if o.wipe_cache || o.auth_only then stop o else run_args o o.args in
      if o.version then pure (print_version ∷ [], exited 0) else go

-- The signals that the program handles, with their numbers.
pub data Signal : Type 0 where
  sigint sigterm : Signal

unfoldable pub signal_number : Signal → ℕ
signal_number sigint = 2
signal_number sigterm = 15

-- UnmountHandler: the status with which the process ends, whether or not unmounting fails.
unfoldable pub unmount_status : Signal → ℕ
unfolding signal_number
unmount_status s = 128 + signal_number s
