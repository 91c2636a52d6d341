-- ===== src/Host.antt =====
-- What the program calls and does not implement, as the parameter of the model: the bbolt database,
-- the server behind the HTTP client, the clock, the random numbers, the Unicode tables, the two
-- hash functions, the JSON codec and the growth of Go slices.
use onedriver.Prelude.{ℕ, String, Char, ◌≡◌, ◌≢◌, Option, none, some, List}
use onedriver.Item.{
  Bytes, Result, ok, DriveItem, SerializeableInode, Drive, DeltaResponse, Auth, HttpRequest,
  HttpResult,
}

pub record Host : Type 1 where
  -- A bbolt bucket: Get, Put (which may refuse) and Delete.
  pub Bucket : Type 0
  pub bucket_get : Bucket → String → Option Bytes
  pub bucket_put : Bucket → String → Bytes → Result Bucket
  pub bucket_delete : Bucket → String → Bucket
  -- The answer to a request, given all requests up to it, the last one first.
  pub transport : List HttpRequest → HttpResult
  -- The n-th reading of the clock, in seconds, and the n-th random number.
  pub now : ℕ → ℕ
  pub random : ℕ → ℕ
  -- The URL at which the user arrives, having authenticated.
  pub auth_response : List HttpRequest → String
  -- unicode.ToLower
  pub lower_rune : Char → Char
  -- sha1.Sum and quickxorhash.Sum
  pub sha1_sum : Bytes → Bytes
  pub quick_xor_sum : Bytes → Bytes
  -- The room that `append` leaves behind a slice, by the old capacity and the new length.
  pub append_room : ℕ → ℕ → ℕ
  -- What lies behind the bytes that ioutil.ReadAll returns.
  pub read_room : Bytes → Bytes
  -- []byte(text) and string(bytes)
  pub bytes_of : String → Bytes
  pub text_of : Bytes → String
  -- json.Marshal and json.Unmarshal. What is read goes into a given value; where the program drops
  -- the error, the value is what there is.
  pub marshal_item : DriveItem → Bytes
  pub unmarshal_item : Bytes → DriveItem → Result DriveItem
  pub marshal_inode : SerializeableInode → Bytes
  pub unmarshal_inode : Bytes → Result SerializeableInode
  pub unmarshal_children : Bytes → List DriveItem
  pub unmarshal_delta : Bytes → DeltaResponse
  pub unmarshal_drive : Bytes → Result Drive
  pub unmarshal_user : Bytes → Result String
  pub unmarshal_error : Bytes → String × String
  pub unmarshal_auth : Bytes → Auth → Auth
  -- The body of a createUploadSession request by its time, and the id and URL that are read from
  -- the answer over the given ones.
  pub marshal_upload : ℕ → Bytes
  pub unmarshal_upload : Bytes → String × String → Result (String × String)

-- What bbolt documents of a bucket: a stored value is read back, and other keys are left alone.
pub record BucketLaws (host : Host) : Type 0 where
  pub get-put_self :
      (b c : host.Bucket) (k : String) (v : Bytes)
      → host.bucket_put b k v ≡ ok c
      → host.bucket_get c k ≡ some v
  pub get-put_ne :
      (b c : host.Bucket) (j k : String) (v : Bytes)
      → host.bucket_put b k v ≡ ok c
      → j ≢ k
      → host.bucket_get c j ≡ host.bucket_get b j
  pub get-delete_self :
      (b : host.Bucket) (k : String) → host.bucket_get (host.bucket_delete b k) k ≡ none
  pub get-delete_ne :
      (b : host.Bucket) (j k : String)
      → j ≢ k
      → host.bucket_get (host.bucket_delete b k) j ≡ host.bucket_get b j

-- What encoding/json documents of a stored inode: it is read back as it was written.
abbrev pub ReadsBack : (host : Host) → SerializeableInode → Type 0
ReadsBack host s = host.unmarshal_inode (host.marshal_inode s) ≡ ok s
