-- ===== src/Tests/Registered.antt =====
-- An example of a new file that gets an id from the server.
use mathlib.Core.Option
use onedriver.Prelude.{none, some, [], ◌∷◌, ◌≡◌, refl, arith, if◌then◌else◌, lookup, ◌==◌}
use onedriver.Item.{ok}
use onedriver.Host.{Host, BucketLaws}
use onedriver.World.{World, Inode, Ptr, done}
use onedriver.Auth.Fresh.{IsFresh}
use onedriver.Fields.{is_dir, get_mode}
use onedriver.Cache.{ids_of, holds}
use onedriver.Cache.Move.{replace_first}
use onedriver.Remote.{remote_id}
use onedriver.Remote.Registered.{IsUnregistered, remote_id_registers}
use onedriver.Tests.{
  apart, sample_host, sample_laws, sample_world, sample_root, sample_file, sample_item, willing,
}

-- A server whose answers name the item "N".
abbrev naming_host : Host
naming_host = record (sample_host willing) {
  unmarshal_item = λ bytes d. ok (record d { id = "N" });
}

naming_laws : BucketLaws naming_host
naming_laws =
    let laws = sample_laws willing in
    record {
      get-put_self = laws.get-put_self;
      get-put_ne = laws.get-put_ne;
      get-delete_self = laws.get-delete_self;
      get-delete_ne = laws.get-delete_ne;
    }

-- The root at 0 and a new file at 1, with stored contents.
abbrev local_heap : Ptr → Inode
local_heap p =
    if p == 0
    then record sample_root { children = some ("local-abc" ∷ []) }
    else record sample_file { item = record sample_item { id = "local-abc" } }

abbrev local_world : World naming_host
local_world =
    let w = sample_world willing in
    record {
      heap = local_heap;
      next = w.next;
      metadata = ("R", 0) ∷ ("local-abc", 1) ∷ [];
      root = w.root;
      delta_link = w.delta_link;
      auth = w.auth;
      drive_type = w.drive_type;
      offline = w.offline;
      content_bucket = ("local-abc", 1 ∷ 2 ∷ []) ∷ [];
      metadata_bucket = w.metadata_bucket;
      delta_bucket = w.delta_bucket;
      sent = w.sent;
      readings = w.readings;
      draws = w.draws;
      token_files = w.token_files;
      queued = w.queued;
      fuse_path = w.fuse_path;
    }

local_file : IsUnregistered 1 0 local_world
unfolding is_dir get_mode lookup holds
local_file = record {
  local = refl;
  file = refl;
  cached = refl;
  found = refl;
  parent = refl;
  named = refl;
  distinct = (refl, tt);
  in_parent = refl;
  apart = λ e. omega arith;
  old = omega arith;
  old_parent = omega arith;
}

local_world-IsFresh : IsFresh naming_host local_world
local_world-IsFresh = record { unexpired = λ n. omega arith }

remote_id_registers_example :
    (v : World naming_host) × (remote_id naming_host 1 local_world ≡ done ("N", none) v)
    × (lookup "N" v.metadata ≡ some 1)
    × (lookup "local-abc" v.metadata ≡ none)
    × ((v.heap 1).id ≡ "N")
    × (ids_of (v.heap 0).children ≡ replace_first "local-abc" "N" ("local-abc" ∷ []))
    × (lookup "N" v.content_bucket
        ≡ Option.or_else
            (lookup "local-abc" local_world.content_bucket)
            (lookup "N" local_world.content_bucket))
    × (lookup "local-abc" v.content_bucket ≡ none)
remote_id_registers_example =
    remote_id_registers naming_host 1 0 local_world [] local_file 200 "N" naming_laws
      (λ b v. (_, refl)) refl local_world-IsFresh refl refl
      (λ d. (record d { id = "N" }, refl, refl)) (apart "local-abc" "N" refl) (apart "R" "N" refl)
