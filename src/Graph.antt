-- ===== src/Graph.antt =====
-- graph/graph.go: requests to Microsoft Graph and the endpoints that the file system uses.
pub mod Attempts
pub mod Effects
use Prim.Native.String.{◌++◌}
use onedriver.Prelude.{
  ℕ, ◌+◌, String, Bool, false, Option, none, some, List, [], ◌∷◌, if◌then◌else◌, leb, str_eq,
  contains, decimal,
}
use onedriver.Item.{
  Bytes, HttpResult, HttpRequest, no_request, transport_error, response, Result, ok, fail,
  DriveItem, zero_item, Drive,
}
use onedriver.Host.{Host}
use onedriver.World.{panic, Ptr, M, pure, ◌>>=◌, ◌>>◌, get_world, send, alloc, modify, load}
use onedriver.Fields.{new_inode, bare_inode, s_ifdir}
use onedriver.Auth.{refresh}

abbrev pub graph_url : String
graph_url = "https://graph.microsoft.com/v1.0"

-- The `auth *Auth` of a call: nil, or the one that the cache holds.
pub data AuthRef : Type 0 where
  no_auth shared_auth : AuthRef

-- ResourcePath
abbrev pub resource_path : String → String
resource_path path = if str_eq path "/" then "/me/drive/root" else "/me/drive/root:" ++ path

-- ChildrenPath
abbrev pub children_path : String → String
children_path path =
    if str_eq path "/"
    then resource_path path ++ "/children"
    else resource_path path ++ ":/children"

-- ChildrenPathID
abbrev pub children_path_id : String → String
children_path_id id = "/me/drive/items/" ++ id ++ "/children"

-- The headers that Request adds.
abbrev pub request_headers : String → String → List (String × String)
request_headers token method =
    ("Authorization", "bearer " ++ token)
    ∷ (if str_eq method "PATCH"
        then ("If-Match", "*") ∷ ("Content-Type", "application/json") ∷ []
        else if str_eq method "POST"
        then ("Content-Type", "application/json") ∷ []
        else if str_eq method "PUT"
        then ("Content-Type", "text/plain") ∷ []
        else [])

module _ (host : Host) where
  -- The end of Request: an HTTP error becomes an error, with what Graph says of it.
  unfoldable pub read_response : ℕ → Bytes → Result Bytes
  read_response status body =
      if leb 400 status
      then (let (code, message) = host.unmarshal_error body in
          fail ("HTTP " ++ decimal status ++ " - " ++ code ++ ": " ++ message))
      else ok body

  -- A nil request panics where its headers are set.
  unfoldable pub read_result : HttpResult → M host (Result Bytes)
  read_result no_request = λ w. panic
  read_result (transport_error err) = pure (fail err)
  read_result (response status body) = pure (read_response status body)

  -- After the first answer: a server error is followed by a second `client.Do` with the same
  -- request. The first one has read its body, of which nothing is left; `transport` says what comes
  -- of such a request, be it an answer or net/http's own error for one that had a body.
  unfoldable pub retry_once : HttpRequest → HttpResult → M host (Result Bytes)
  retry_once request no_request = λ w. panic
  retry_once request (transport_error err) = pure (fail err)
  retry_once request (response status body) =
      if leb 500 status
      then (do again ← send (record request { body = [] }); read_result again)
      else read_result (response status body)

  -- Request with tokens at hand.
  unfoldable pub send_request : String → String → Bytes → M host (Result Bytes)
  send_request resource method content = do
    refresh host
    w ← get_world
    let request : HttpRequest = record {
      method = method;
      url = graph_url ++ resource;
      headers = request_headers w.auth.access_token method;
      body = content;
    }
    first ← send request
    retry_once request first

  -- Request
  unfoldable pub request : String → AuthRef → String → Bytes → M host (Result Bytes)
  request resource no_auth method content = pure (fail "Cannot make a request with empty auth")
  request resource shared_auth method content = do
    w ← get_world
    if str_eq w.auth.access_token ""
        then pure (fail "Cannot make a request with empty auth")
        else send_request resource method content

  -- Get, Patch, Post, Put
  abbrev pub get : String → AuthRef → M host (Result Bytes)
  get resource auth = request resource auth "GET" []

  abbrev pub patch : String → AuthRef → Bytes → M host (Result Bytes)
  patch resource auth content = request resource auth "PATCH" content

  abbrev pub post : String → AuthRef → Bytes → M host (Result Bytes)
  post resource auth content = request resource auth "POST" content

  abbrev pub put : String → AuthRef → Bytes → M host (Result Bytes)
  put resource auth content = request resource auth "PUT" content

  -- An `error` alone: the error of a result whose value is dropped.
  abbrev pub error_of {ℓ} : {A : Type ℓ} → Result A → Option String
  error_of (ok a) = none
  error_of (fail err) = some err

  -- Delete
  abbrev pub delete_resource : String → AuthRef → M host (Option String)
  delete_resource resource auth = do r ← request resource auth "DELETE" []; pure (error_of r)

  parse_drive : Result Bytes → Result Drive
  parse_drive (fail err) = fail err
  parse_drive (ok body) = host.unmarshal_drive body

  -- GetDrive
  unfoldable pub get_drive : AuthRef → M host (Result Drive)
  unfolding parse_drive
  get_drive auth = do body ← get "/me/drive" auth; pure (parse_drive body)

  parse_user : Result Bytes → Result String
  parse_user (fail err) = fail err
  parse_user (ok body) = host.unmarshal_user body

  -- GetUser, whose only field is the principal name.
  unfoldable pub get_user : AuthRef → M host (Result String)
  unfolding parse_user
  get_user auth = do body ← get "/me" auth; pure (parse_user body)

  -- A parsed item becomes a new inode.
  pub new_item : Result DriveItem → M host (Result Ptr)
  new_item (fail err) = pure (fail err)
  new_item (ok item) = do p ← alloc (bare_inode host item); pure (ok p)

  pub parse_item : Result Bytes → M host (Result Ptr)
  unfolding new_item
  parse_item (fail err) = pure (fail err)
  parse_item (ok body) = new_item (host.unmarshal_item body zero_item)

  -- GetItem
  unfoldable pub get_item : String → AuthRef → M host (Result Ptr)
  unfolding parse_item
  get_item id auth = do
    body ← get (if str_eq id "root" then "/me/drive/root" else "/me/drive/items/" ++ id) auth
    parse_item body

  -- GetItemPath
  unfoldable pub get_item_path : String → AuthRef → M host (Result Ptr)
  unfolding parse_item
  get_item_path path auth = do body ← get (resource_path path) auth; parse_item body

  -- GetItemContent
  abbrev pub get_item_content : String → AuthRef → M host (Result Bytes)
  get_item_content id auth = get ("/me/drive/items/" ++ id ++ "/content") auth

  -- Remove
  abbrev pub remove : String → AuthRef → M host (Option String)
  remove id auth = delete_resource ("/me/drive/items/" ++ id) auth

  -- json.Unmarshal into an inode that is there already.
  pub unmarshal_into : Ptr → Result DriveItem → M host (Result Ptr)
  unmarshal_into p (fail err) = pure (fail err)
  unmarshal_into p (ok item) = do modify p (λ i. record i { item = item }); pure (ok p)

  -- Mkdir, once the server has answered.
  pub made : String → Result Bytes → M host (Result Ptr)
  unfolding unmarshal_into
  made name (fail err) = pure (fail err)
  made name (ok body) = do
    p ← new_inode host name (0o755 + s_ifdir) none
    i ← load p
    unmarshal_into p (host.unmarshal_item body i.item)

  -- Mkdir
  unfoldable pub mkdir : String → String → AuthRef → M host (Result Ptr)
  unfolding made
  mkdir name parent_id auth = do
    body ←
        post (children_path_id parent_id) auth
          (host.marshal_item (record zero_item { name = name; folder = some 0 }))
    made name body

  -- The patch that moves an item under a parent, by a name.
  rename_patch : String → String → Bytes
  rename_patch name parent_id = host.marshal_item (record zero_item {
    conflict_behavior = "replace";
    name = name;
    parent = some (record { path = ""; id = parent_id });
  })

  -- `err != nil && strings.Contains(err.Error(), "resourceModified")`
  abbrev pub is_resource_modified : Result Bytes → Bool
  is_resource_modified (ok body) = false
  is_resource_modified (fail err) = contains err "resourceModified"

  -- Rename
  unfoldable pub rename : String → String → String → AuthRef → M host (Option String)
  unfolding rename_patch
  rename id name parent_id auth = do
    let content = rename_patch name parent_id
    first ← patch ("/me/drive/items/" ++ id) auth content
    let retry = do second ← patch ("/me/drive/items/" ++ id) auth content; pure (error_of second)
    if is_resource_modified first then retry else pure (error_of first)
