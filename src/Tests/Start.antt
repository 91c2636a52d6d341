-- ===== src/Tests/Start.antt =====
-- Examples for the start of the file system and for the tokens.
use onedriver.Prelude.{true, false, none, some, List, [], ◌∷◌, ◌≡◌, refl, arith, lookup}
use onedriver.Item.{HttpRequest, HttpResult, transport_error, ok}
use onedriver.Host.{Host, BucketLaws}
use onedriver.System.{System}
use onedriver.World.{World, done}
use onedriver.Auth.{refresh, parse_auth, lacks_tokens, zero_auth}
use onedriver.Auth.Code.{find_code, code_run, is_code_char}
use onedriver.Auth.Login.{AreTokens, refresh_renews, authenticate_pathless}
use onedriver.Auth.Start.{authenticate}
use onedriver.Cache.{get_id, stored_inode}
use onedriver.Cache.Content.{serializeable, serialize_all}
use onedriver.Start.{start_cache}
use onedriver.Start.Offline.{IsDown, offline_restart}
use onedriver.Tests.{sample_host, sample_laws, sample_world, sample_root, willing}

abbrev pub sample_system : System
sample_system = record {
  uid = 1000;
  user_cache_dir = "/home/user/.cache";
  exists = λ path. false;
  read_file = λ path. none;
  removes = λ path. true;
  opens_db = λ path. true;
  mounts = λ path. true;
}

-- No network, and a database that holds the root.
abbrev unreachable : List HttpRequest → HttpResult
unreachable sent = transport_error "dial tcp: network is unreachable"

abbrev pub root_host : Host
root_host = record (sample_host unreachable) {
  unmarshal_inode = λ bytes. ok (serializeable sample_root);
}

root_laws : BucketLaws root_host
root_laws =
    let laws = sample_laws unreachable in
    record {
      get-put_self = laws.get-put_self;
      get-put_ne = laws.get-put_ne;
      get-delete_self = laws.get-delete_self;
      get-delete_ne = laws.get-delete_ne;
    }

abbrev root_world : World root_host
root_world =
    let w = sample_world unreachable in
    record {
      heap = w.heap;
      next = w.next;
      metadata = w.metadata;
      root = w.root;
      delta_link = w.delta_link;
      auth = w.auth;
      drive_type = w.drive_type;
      offline = w.offline;
      content_bucket = w.content_bucket;
      metadata_bucket = w.metadata_bucket;
      delta_bucket = ("deltaLink", 7 ∷ []) ∷ [];
      sent = w.sent;
      readings = w.readings;
      draws = w.draws;
      token_files = w.token_files;
      queued = w.queued;
      fuse_path = w.fuse_path;
    }

-- The same without a delta link.
abbrev linkless_world : World root_host
linkless_world = record root_world { delta_bucket = [] }

root_world-IsDown : IsDown root_host root_world
root_world-IsDown = record {
  err = "dial tcp: network is unreachable";
  token = refl;
  fresh = record { unexpired = λ n. omega arith };
  answer = refl;
  offline = refl;
}

linkless_world-IsDown : IsDown root_host linkless_world
linkless_world-IsDown = record {
  err = "dial tcp: network is unreachable";
  token = refl;
  fresh = record { unexpired = λ n. omega arith };
  answer = refl;
  offline = refl;
}

offline_restart_example :
    (w' v' : World root_host) × (serialize_all root_host root_world ≡ done tt w')
    × (start_cache root_host sample_system
          (record root_world { metadata_bucket = w'.metadata_bucket })
        ≡ done tt v')
    × (v'.offline ≡ true)
    × (v'.delta_link ≡ "")
    × (v'.root ≡ "R")
    × (get_id root_host "R" v' ≡ done (some 3) v')
    × (v'.heap 3 ≡ stored_inode (serializeable sample_root))
unfolding lookup
offline_restart_example =
    offline_restart root_host root_laws sample_system root_world root_world 0 (λ b v. (_, refl))
      refl (refl, (refl, tt)) refl refl refl refl root_world-IsDown refl

-- Tokens that have expired.
abbrev expired_world : World (sample_host willing)
expired_world = record (sample_world willing) {
  auth = record (sample_world willing).auth { expires_at = 1 };
}

refresh_renews_example :
    (w' : World (sample_host willing)) × (refresh (sample_host willing) expired_world ≡ done tt w')
    × AreTokens (sample_host willing) [] expired_world.auth 1 w'.auth
    × (w'.token_files ≡ (expired_world.auth.path, w'.auth) ∷ [])
unfolding lacks_tokens parse_auth
refresh_renews_example =
    refresh_renews (sample_host willing) expired_world {status = 200} {body = []} refl refl refl

-- A server that sends tokens to a program that has none.
abbrev login_host : Host
login_host = record (sample_host willing) {
  unmarshal_auth =
      λ bytes auth. record auth { expires_in = 9; access_token = "token"; refresh_token = "again" };
}

abbrev login_world : World login_host
login_world =
    let w = sample_world willing in
    record {
      heap = w.heap;
      next = w.next;
      metadata = w.metadata;
      root = w.root;
      delta_link = w.delta_link;
      auth = record w.auth {
        expires_in = 0;
        expires_at = 0;
        access_token = "";
        refresh_token = "";
        path = "";
      };
      drive_type = w.drive_type;
      offline = w.offline;
      content_bucket = w.content_bucket;
      metadata_bucket = w.metadata_bucket;
      delta_bucket = w.delta_bucket;
      sent = w.sent;
      readings = w.readings;
      draws = w.draws;
      token_files = w.token_files;
      queued = w.queued;
      fuse_path = w.fuse_path;
    }

authenticate_pathless_example :
    (w' : World login_host) × (authenticate login_host sample_system "auth_tokens.json" login_world
      ≡ done tt w')
    × AreTokens login_host [] (zero_auth login_host) 0 w'.auth
    × (w'.auth.path ≡ "")
    × (w'.token_files ≡ ("auth_tokens.json", record w'.auth { path = "auth_tokens.json" }) ∷ [])
unfolding find_code code_run is_code_char parse_auth lacks_tokens
authenticate_pathless_example =
    authenticate_pathless login_host sample_system "auth_tokens.json" login_world {status = 200}
      {body = []} refl (refl, refl) refl
