-- ===== src/Tests/Lost.antt =====
-- Examples of a new file that cannot be uploaded, and of a database that is full.
use onedriver.Prelude.{true, none, some, [], ◌≡◌, refl, arith, if◌then◌else◌, ◌==◌}
use onedriver.Item.{fail}
use onedriver.Host.{Host}
use onedriver.World.{World, Inode, done}
use onedriver.Auth.Fresh.{IsFresh}
use onedriver.Fields.{is_dir, get_mode}
use onedriver.Open.{success, eremoteio}
use onedriver.File.{fsync, flush}
use onedriver.File.Forgotten.{IsNew, fsync_forgets, flush_loses}
use onedriver.Tests.{sample_host, sample_world, sample_root, sample_file, sample_item, sample_slice}
use onedriver.Tests.Failures.{broken}

abbrev new_file : Inode
new_file = record sample_file { item = record sample_item { id = "local-abc" }; has_changes = true }

new_file-IsNew : IsNew new_file sample_slice
unfolding is_dir get_mode
new_file-IsNew = record {
  content = refl;
  has_changes = refl;
  has_cache = refl;
  local = refl;
  file = refl;
}

abbrev new_world : World (sample_host broken)
new_world = record (sample_world broken) { heap = λ p. if p == 0 then sample_root else new_file }

new_world-IsFresh : IsFresh (sample_host broken) new_world
new_world-IsFresh = record { unexpired = λ n. omega arith }

fsync_forgets_example :
    (w' : World (sample_host broken)) × (fsync (sample_host broken) 1 new_world ≡ done eremoteio w')
    × (fsync (sample_host broken) 1 w' ≡ done success w')
    × (w'.queued ≡ [])
    × ((w'.heap 1).content ≡ some sample_slice)
fsync_forgets_example =
    fsync_forgets (sample_host broken) 1 new_world sample_slice new_file-IsNew refl refl
      new_world-IsFresh refl refl

-- The same with a database that takes no contents.
abbrev full_host : Host
full_host = record (sample_host broken) { bucket_put = λ b k v. fail "full" }

abbrev full_world : World full_host
full_world =
    let w = new_world in
    record {
      heap = w.heap;
      next = w.next;
      metadata = w.metadata;
      root = w.root;
      delta_link = w.delta_link;
      auth = w.auth;
      drive_type = w.drive_type;
      offline = w.offline;
      content_bucket = [];
      metadata_bucket = w.metadata_bucket;
      delta_bucket = w.delta_bucket;
      sent = w.sent;
      readings = w.readings;
      draws = w.draws;
      token_files = w.token_files;
      queued = w.queued;
      fuse_path = w.fuse_path;
    }

full_world-IsFresh : IsFresh full_host full_world
full_world-IsFresh = record { unexpired = λ n. omega arith }

flush_loses_example :
    (w' : World full_host) × (flush full_host 1 full_world ≡ done success w')
    × ((w'.heap 1).content ≡ none)
    × (w'.content_bucket ≡ [])
    × (w'.queued ≡ [])
flush_loses_example =
    flush_loses full_host 1 full_world sample_slice new_file-IsNew refl refl full_world-IsFresh refl
      refl refl
