-- ===== src/Start.antt =====
-- graph/cache.go and graph/fs.go: the start of the file system, online or from the database.
pub mod Offline
use Prim.Native.String.{◌++◌}
use onedriver.Prelude.{
  String, true, false, Option, none, some, [], if◌then◌else◌, decimal, path_join,
}
use onedriver.Item.{Result, ok, fail}
use onedriver.Host.{Host}
use onedriver.System.{System}
use onedriver.World.{Ptr, M, done, exit, pure, ◌>>=◌, ◌>>◌, get_world, modify, load}
use onedriver.Auth.{is_offline}
use onedriver.Auth.Start.{authenticate}
use onedriver.Graph.{shared_auth, get_item, mkdir}
use onedriver.Cache.{get_id, insert_id}
use onedriver.Cache.Children.{get_child}
use onedriver.Cache.Paths.{get_path}

module _ (system : System) where
  -- CacheDir
  abbrev pub cache_dir : String
  cache_dir = path_join system.user_cache_dir "onedriver"

  -- The name of the user's trash folder.
  abbrev pub trash : String
  trash = ".Trash-" ++ decimal system.uid

-- The delta link of a session that starts online.
abbrev pub latest : String
latest = "/me/drive/root/delta?token=latest"

module _ (host : Host) where
  -- &Cache{auth: auth, db: db}
  unfoldable pub empty_cache : M host (Unit {0})
  empty_cache w =
      done tt
        (record w { metadata = []; root = ""; delta_link = ""; drive_type = ""; offline = false })

  unfoldable pub go_offline : M host (Unit {0})
  go_offline w = done tt (record w { offline = true })

  unfoldable pub set_root : String → M host (Unit {0})
  set_root id w = done tt (record w { root = id })

  unfoldable pub set_link : String → M host (Unit {0})
  set_link link w = done tt (record w { delta_link = link })

  -- log.Fatal where there is nothing.
  abbrev pub or_exit : {A : Type 0} → Option A → M host A
  or_exit none w = exit
  or_exit (some a) w = done a w

  -- The root of a session that starts offline, with the stored delta link.
  unfoldable pub stored_root : M host Ptr
  stored_root = do
    go_offline
    found ← get_id host "root"
    p ← or_exit found
    w ← get_world
    link ← or_exit (host.bucket_get w.delta_bucket "deltaLink")
    set_link (host.text_of link)
    pure p

  -- The root, once the server was asked for it.
  unfoldable pub find_root : Result Ptr → M host Ptr
  find_root (ok p) = pure p
  find_root (fail err) = if is_offline err then stored_root else (λ w. exit)

  -- The trash folder is made where GetChild does not find it.
  unfoldable pub insert_trash : Result Ptr → M host (Unit {0})
  insert_trash (fail err) = pure tt
  insert_trash (ok p) = do item ← load p; insert_id host item.id p

  unfoldable pub make_trash : String → String → Result Ptr → M host (Unit {0})
  make_trash name root (ok p) = pure tt
  make_trash name root (fail err) = do item ← mkdir host name root shared_auth; insert_trash item

  unfoldable pub start_online : System → M host (Unit {0})
  start_online system = do
    w ← get_world
    child ← get_child host w.root (trash system) shared_auth
    make_trash (trash system) w.root child
    set_link latest

  -- NewCache, once the database is open.
  unfoldable pub start_cache : System → M host (Unit {0})
  start_cache system = do
    empty_cache
    item ← get_item host "root" shared_auth
    p ← find_root item
    modify p (λ i. record i { has_cache = true })
    root ← load p
    set_root root.id
    insert_id host root.id p
    w ← get_world
    if w.offline then pure tt else start_online system

  -- NewCache
  unfoldable pub new_cache : System → String → M host (Unit {0})
  new_cache system path = if system.opens_db path then start_cache system else (λ w. exit)

  root_of : Result (Option Ptr) → Option Ptr
  root_of (fail err) = none
  root_of (ok found) = found

  -- NewFS
  unfoldable pub new_fs : System → String → String → M host (Option Ptr)
  unfolding root_of
  new_fs system db_path auth_path = do
    authenticate host system auth_path
    new_cache system db_path
    root ← get_path host "/" shared_auth
    pure (root_of root)
