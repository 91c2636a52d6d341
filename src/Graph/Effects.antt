-- ===== src/Graph/Effects.antt =====
-- The effects of the requests to Microsoft Graph.
use onedriver.Prelude.{String}
use onedriver.Item.{
  Bytes, HttpRequest, HttpResult, no_request, transport_error, response, Result, ok, fail,
  DriveItem,
}
use onedriver.Host.{Host}
use onedriver.World.{Ptr}
use onedriver.World.{World}
use onedriver.World.Effects.{Effects, Respects, effect_rules}
use onedriver.Auth.Effects.{refresh-Respects}
use onedriver.Fields.Effects.{new_inode-Respects}
use onedriver.Graph.{
  AuthRef, no_auth, shared_auth, read_result, retry_once, send_request, request, get_drive,
  new_item, parse_item, get_item, unmarshal_into, made, mkdir, rename,
}

module _ {host : Host} {R : World host → World host → Type 0} (e : Effects host R) where
  read_result-Respects : (r : HttpResult) → Respects R (read_result host r)
  unfolding read_result
  read_result-Respects no_request = search (effect_rules, e)
  read_result-Respects (transport_error err) = search (effect_rules, e)
  read_result-Respects (response status body) = search (effect_rules, e)

  retry_once-Respects :
      (r : HttpRequest) (first : HttpResult) → Respects R (retry_once host r first)
  unfolding retry_once
  retry_once-Respects r no_request = search (effect_rules, e)
  retry_once-Respects r (transport_error err) = search (effect_rules, e)
  retry_once-Respects r (response status body) = search (effect_rules, e, read_result-Respects)

  send_request-Respects :
      (resource method : String) (content : Bytes)
      → Respects R (send_request host resource method content)
  unfolding send_request
  send_request-Respects resource method content =
      search (effect_rules, e, refresh-Respects, retry_once-Respects)

  pub request-Respects :
      (resource : String) (auth : AuthRef) (method : String) (content : Bytes)
      → Respects R (request host resource auth method content)
  unfolding request
  request-Respects resource no_auth method content = search (effect_rules, e)
  request-Respects resource shared_auth method content =
      search (effect_rules, e, send_request-Respects)

  pub get_drive-Respects : (auth : AuthRef) → Respects R (get_drive host auth)
  unfolding get_drive
  get_drive-Respects auth = search (effect_rules, e, request-Respects)

  new_item-Respects : (parsed : Result DriveItem) → Respects R (new_item host parsed)
  unfolding new_item
  new_item-Respects (fail err) = search (effect_rules, e)
  new_item-Respects (ok item) = search (effect_rules, e)

  parse_item-Respects : (body : Result Bytes) → Respects R (parse_item host body)
  unfolding parse_item
  parse_item-Respects (fail err) = search (effect_rules, e)
  parse_item-Respects (ok body) = new_item-Respects _

  pub get_item-Respects : (id : String) (auth : AuthRef) → Respects R (get_item host id auth)
  unfolding get_item
  get_item-Respects id auth = search (effect_rules, e, request-Respects, parse_item-Respects)

  unmarshal_into-Respects :
      (p : Ptr) (parsed : Result DriveItem) → Respects R (unmarshal_into host p parsed)
  unfolding unmarshal_into
  unmarshal_into-Respects p (fail err) = search (effect_rules, e)
  unmarshal_into-Respects p (ok item) = search (effect_rules, e)

  made-Respects : (name : String) (body : Result Bytes) → Respects R (made host name body)
  unfolding made
  made-Respects name (fail err) = search (effect_rules, e)
  made-Respects name (ok body) =
      search (effect_rules, e, new_inode-Respects, unmarshal_into-Respects)

  pub mkdir-Respects :
      (name parent_id : String) (auth : AuthRef) → Respects R (mkdir host name parent_id auth)
  unfolding mkdir
  mkdir-Respects name parent_id auth = search (effect_rules, e, request-Respects, made-Respects)

  pub rename-Respects :
      (id name parent_id : String) (auth : AuthRef)
      → Respects R (rename host id name parent_id auth)
  unfolding rename
  rename-Respects id name parent_id auth = search (effect_rules, e, request-Respects)
