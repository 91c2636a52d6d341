-- ===== src/Tests/Command.antt =====
-- Examples for the command.
use onedriver.Prelude.{
  true, false, some, [], ◌∷◌, ◌≡◌, refl, lookup, insert, split_slash, trim_slash, map_runes,
}
use onedriver.Host.{Host}
use onedriver.System.{System}
use onedriver.World.{World}
use onedriver.Start.{
  new_fs, new_cache, start_cache, empty_cache, find_root, stored_root, go_offline, set_link,
  set_root,
}
use onedriver.Auth.Start.{authenticate, from_file}
use onedriver.Auth.{refresh}
use onedriver.Graph.{get_item, request, send_request, retry_once, get_user}
use onedriver.Cache.{get_id, load_stored, keep_stored, insert_id, stored_inode}
use onedriver.Cache.Content.{serializeable}
use onedriver.Cache.Paths.{get_path, walk, path_parts, missing}
use onedriver.Cache.Children.{children_of, collect, enter, get_children_id, list_found}
use onedriver.Fields.{get_mode, is_dir}
use onedriver.Main.{
  Options, run_main, run_args, serve, mount_found, create_volume_info, make_missing, mount_at,
}
use onedriver.Tests.Calls.{world_after}
use onedriver.Main.Mounts.{Mounts, run_main-Mounts}
use onedriver.Tests.{sample_world, willing}
use onedriver.Tests.Start.{sample_system, root_host}

-- A host without a network, with a file of tokens, and with the root in the database.
abbrev logged_in_host : Host
logged_in_host = record root_host {
  unmarshal_auth =
      λ bytes auth. record auth { expires_at = 9; access_token = "token"; refresh_token = "again" };
}

abbrev logged_in_system : System
logged_in_system = record sample_system { exists = λ path. true; read_file = λ path. some (1 ∷ []) }

abbrev logged_in_world : World logged_in_host
logged_in_world =
    let w = sample_world willing in
    record {
      heap = w.heap;
      next = w.next;
      metadata = w.metadata;
      root = w.root;
      delta_link = w.delta_link;
      auth = w.auth;
      drive_type = w.drive_type;
      offline = w.offline;
      content_bucket = w.content_bucket;
      metadata_bucket = ("root", 1 ∷ []) ∷ [];
      delta_bucket = ("deltaLink", 7 ∷ []) ∷ [];
      sent = w.sent;
      readings = w.readings;
      draws = w.draws;
      token_files = w.token_files;
      queued = w.queued;
      fuse_path = w.fuse_path;
    }

abbrev mounting : Options
mounting = record {
  auth_only = false;
  wipe_cache = false;
  version = false;
  cache_dir = "";
  args = "/mnt" ∷ [];
}

abbrev served_world : World logged_in_host
served_world =
    world_after logged_in_world (run_main logged_in_host logged_in_system mounting logged_in_world)

run_main-Mounts_example :
    (false ≡ false)
    × (false ≡ false)
    × (false ≡ false)
    × Mounts logged_in_host logged_in_system mounting ("/mnt" ∷ []) logged_in_world served_world
unfolding run_main run_args serve new_fs authenticate refresh from_file new_cache start_cache
    empty_cache get_item request send_request retry_once find_root stored_root go_offline get_id
    lookup load_stored keep_stored set_link set_root insert_id stored_inode serializeable get_path
    insert mount_found create_volume_info walk path_parts split_slash trim_slash children_of collect
    enter get_children_id list_found missing get_mode is_dir get_user make_missing mount_at
    map_runes
run_main-Mounts_example =
    run_main-Mounts logged_in_host logged_in_system mounting logged_in_world refl
