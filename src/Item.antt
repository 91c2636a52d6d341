-- ===== src/Item.antt =====
-- The data of graph/inode.go, graph/graph.go and graph/oauth2.go: what the Graph API sends and what
-- is stored. A nil pointer is `none`; a time is its Unix second, which is all the program reads of
-- it; an `error` is its text. Machine integers are plain numbers, and where the program adds or
-- subtracts them the wrap-around is written out.
use onedriver.Prelude.{ℕ, String, Option, none, List}

abbrev pub Bytes : Type 0
Bytes = List ℕ

-- A value, or the text of an error.
pub data Result {ℓ} (A : Type ℓ) : Type ℓ where
  ok : A → Result A
  fail : String → Result A

-- DriveItemParent
pub record DriveItemParent : Type 0 where
  pub path : String
  pub id : String

-- Hashes of a File
pub record Hashes : Type 0 where
  pub sha1_hash : String
  pub quick_xor_hash : String

-- DriveItem. `folder` holds the child count of a Folder, `file` the hashes of a File and `deleted`
-- the state of a Deleted.
pub record DriveItem : Type 0 where
  pub id : String
  pub name : String
  pub size : ℕ
  pub mod_time : Option ℕ
  pub parent : Option DriveItemParent
  pub folder : Option ℕ
  pub file : Option Hashes
  pub deleted : Option String
  pub conflict_behavior : String

-- DriveItem{}
abbrev pub zero_item : DriveItem
zero_item = record {
  id = "";
  name = "";
  size = 0;
  mod_time = none;
  parent = none;
  folder = none;
  file = none;
  deleted = none;
  conflict_behavior = "";
}

-- SerializeableInode
pub record SerializeableInode : Type 0 where
  pub item : DriveItem
  pub children : Option (List String)
  pub subdir : ℕ
  pub mode : ℕ

-- Drive and its DriveQuota
pub record Drive : Type 0 where
  pub drive_type : String
  pub total : ℕ
  pub remaining : ℕ
  pub file_count : ℕ

-- deltaResponse
pub record DeltaResponse : Type 0 where
  pub next_link : String
  pub delta_link : String
  pub values : List DriveItem

-- Auth
pub record Auth : Type 0 where
  pub expires_in : ℕ
  pub expires_at : ℕ
  pub access_token : String
  pub refresh_token : String
  pub path : String

-- One HTTP request, as it is handed to the client.
pub record HttpRequest : Type 0 where
  pub method : String
  pub url : String
  pub headers : List (String × String)
  pub body : Bytes

-- What making a request and handing it to `client.Do` comes to. `no_request` is the nil request of an
-- `http.NewRequest` that refuses the URL, an error that the program drops. With an error of
-- `client.Do` there is no response; a request whose body was used up before is one that net/http
-- may refuse itself.
pub data HttpResult : Type 0 where
  no_request : HttpResult
  transport_error : String → HttpResult
  response : (status : ℕ) → (body : Bytes) → HttpResult

-- The states of an upload.
pub data UploadState : Type 0 where
  not_started started complete errored : UploadState
