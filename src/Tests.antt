-- ===== src/Tests.antt =====
-- A host, inodes and worlds for the examples: a database that is an association list with room for
-- every entry, a clock that stands at 1, and a server that is given.
pub mod Files
pub mod Calls
pub mod Lost
pub mod Store
pub mod Uploads
pub mod Failures
pub mod Start
pub mod Command
pub mod Texts
pub mod Retries
pub mod Changes
pub mod Order
pub mod Names
pub mod Registered
use onedriver.Prelude.{
  ℕ, String, Bool, true, false, Option, none, some, List, [], ◌∷◌, ◌≡◌, ◌≢◌, refl, arith,
  if◌then◌else◌, str_eq, eq_iff, eq_refl, lookup, insert, delete, lookup-insert, lookup-delete,
  ◌==◌,
}
use onedriver.Item.{
  Bytes, DriveItemParent, DriveItem, zero_item, SerializeableInode, Auth, HttpRequest, HttpResult,
  response, ok,
}
use onedriver.Host.{Host, BucketLaws}
use onedriver.World.{Slice, Inode, Ptr, World}
use onedriver.Cache.Content.{serializeable}

pub apart : (a b : String) → str_eq a b ≡ false → a ≢ b
apart a b h e = ground (arith, eq_iff a b)

abbrev pub sample_slice : Slice
sample_slice = record { elems = 1 ∷ 2 ∷ 3 ∷ []; spare = 9 ∷ [] }

abbrev pub sample_item : DriveItem
sample_item = record zero_item {
  id = "F";
  name = "notes.txt";
  size = 3;
  mod_time = some 5;
  parent = some (record { path = "/drive/root:"; id = "R" });
}

abbrev pub sample_root : Inode
sample_root = record {
  item = record zero_item { id = "R"; name = "root"; folder = some 1 };
  has_cache = true;
  children = some ("F" ∷ []);
  content = none;
  has_changes = false;
  subdir = 0;
  mode = 0;
}

abbrev pub sample_file : Inode
sample_file = record {
  item = sample_item;
  has_cache = true;
  children = none;
  content = some sample_slice;
  has_changes = false;
  subdir = 0;
  mode = 33188;
}

-- What the server tells of the same file, later and longer.
abbrev pub sample_delta : Inode
sample_delta = record sample_file {
  item = record sample_item { size = 7; mod_time = some 8 };
  content = none;
}

abbrev pub sample_host : (List HttpRequest → HttpResult) → Host
sample_host server = record {
  Bucket = List (String × Bytes);
  bucket_get = λ b k. lookup k b;
  bucket_put = λ b k v. ok (insert k v b);
  bucket_delete = λ b k. delete k b;
  transport = server;
  now = λ n. 1;
  random = λ n. n;
  auth_response = λ sent. "https://login.live.com/oauth20_desktop.srf?code=M-1&lc=1033";
  lower_rune = λ c. c;
  sha1_sum = λ bytes. [];
  quick_xor_sum = λ bytes. [];
  append_room = λ old new. 0;
  read_room = λ bytes. [];
  bytes_of = λ text. [];
  text_of = λ bytes. "";
  marshal_item = λ item. [];
  unmarshal_item = λ bytes item. ok item;
  marshal_inode = λ inode. inode.mode ∷ [];
  unmarshal_inode = λ bytes. ok (serializeable sample_file);
  unmarshal_children = λ bytes. [];
  unmarshal_delta = λ bytes. record { next_link = ""; delta_link = ""; values = [] };
  unmarshal_drive =
      λ bytes. ok (record { drive_type = "personal"; total = 0; remaining = 0; file_count = 0 });
  unmarshal_user = λ bytes. ok "user@example.com";
  unmarshal_error = λ bytes. ("", "");
  unmarshal_auth = λ bytes auth. auth;
  marshal_upload = λ time. [];
  unmarshal_upload = λ bytes session. ok session;
}

pub sample_laws : (server : List HttpRequest → HttpResult) → BucketLaws (sample_host server)
sample_laws server = record {
  get-put_self = λ b c k v put. ground (arith, lookup-insert k k v b, eq_refl k);
  get-put_ne = λ b c j k v put other. ground (arith, lookup-insert j k v b, eq_iff k j);
  get-delete_self = λ b k. rw lookup-delete (rw eq_refl);
  get-delete_ne = λ b j k other. ground (arith, lookup-delete j k b, eq_iff k j);
}

-- A server that answers all, and one that fails once.
abbrev pub willing : List HttpRequest → HttpResult
willing sent = response 200 []

abbrev pub failing_once : List HttpRequest → HttpResult
failing_once [] = response 200 []
failing_once (r ∷ []) = response 503 []
failing_once (r ∷ s ∷ sent) = response 200 []

-- The root at 0, the file at 1, the server's version of it at 2.
abbrev pub sample_world : (server : List HttpRequest → HttpResult) → World (sample_host server)
sample_world server = record {
  heap = λ p. if p == 0 then sample_root else if p == 1 then sample_file else sample_delta;
  next = 3;
  metadata = ("R", 0) ∷ ("F", 1) ∷ [];
  root = "R";
  delta_link = "";
  auth = record {
    expires_in = 9;
    expires_at = 9;
    access_token = "token";
    refresh_token = "again";
    path = "tokens.json";
  };
  drive_type = "personal";
  offline = false;
  content_bucket = ("F", 1 ∷ 2 ∷ []) ∷ [];
  metadata_bucket = ("F", 3 ∷ []) ∷ [];
  delta_bucket = [];
  sent = [];
  readings = 0;
  draws = 0;
  token_files = [];
  queued = [];
  fuse_path = λ p. "";
}
