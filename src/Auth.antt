-- ===== src/Auth.antt =====
-- graph/oauth2.go: the renewal of the access tokens.
pub mod Fresh
pub mod Code
pub mod Start
pub mod Failures
pub mod Login
pub mod Effects
use Prim.Native.String.{◌++◌}
use onedriver.Prelude.{
  ◌+◌, String, Bool, true, false, ◌||◌, none, some, [], ◌∷◌, if◌then◌else◌, leb, ◌==◌, str_eq,
  contains,
}
use onedriver.Item.{Bytes, Auth, HttpResult, no_request, transport_error, response}
use onedriver.Host.{Host}
use onedriver.Auth.Code.{find_code}
use onedriver.World.{M, done, panic, exit, pure, ◌>>=◌, ◌>>◌, get_world, read_clock, send}

-- IsOffline of a graph error.
abbrev pub is_offline : String → Bool
is_offline err = contains err "network is unreachable" || contains err "connection refused"

abbrev pub client_id : String
client_id = "3470c3fa-bc10-45ab-a0a9-2d30836485d1"

abbrev pub redirect_url : String
redirect_url = "https://login.live.com/oauth20_desktop.srf"

abbrev pub token_url : String
token_url = "https://login.microsoftonline.com/common/oauth2/v2.0/token"

module _ (host : Host) where
  unfoldable pub set_auth : Auth → M host (Unit {0})
  set_auth a w = done tt (record w { auth = a })

  -- http.Post of a form to the token endpoint.
  pub post_form : String → M host HttpResult
  post_form form = send (record {
    method = "POST";
    url = token_url;
    headers = ("Content-Type", "application/x-www-form-urlencoded") ∷ [];
    body = host.bytes_of form;
  })

  -- ToFile; a failed write is not noticed.
  -- The receiver is a copy, whose new path the caller does not see.
  unfoldable pub to_file : Auth → String → M host (Unit {0})
  to_file a file w =
      done tt (record w { token_files = (file, record a { path = file }) ∷ w.token_files })

  unfoldable pub get_auth_code : M host String
  get_auth_code = do
    w ← get_world
    let found = find_code (host.auth_response w.sent)
    if str_eq found "" then (λ v. exit) else pure found

  abbrev pub zero_auth : Auth
  zero_auth = record {
    expires_in = 0;
    expires_at = 0;
    access_token = "";
    refresh_token = "";
    path = "";
  }

  unfoldable pub lacks_tokens : Auth → Bool
  lacks_tokens a = str_eq a.access_token "" || str_eq a.refresh_token ""

  -- A lifetime that was not sent with its end starts now.
  pub stamp : Bool → Auth → M host Auth
  stamp false a = pure a
  stamp true a = do time ← read_clock; pure (record a { expires_at = time + a.expires_in })

  -- json.Unmarshal over given tokens, which keeps the unexported path.
  unfoldable pub parse_auth : Bytes → Auth → Auth
  parse_auth body a = record (host.unmarshal_auth body a) { path = a.path }

  pub parse_tokens : HttpResult → M host Auth
  unfolding lacks_tokens stamp parse_auth
  parse_tokens no_request = λ w. exit
  parse_tokens (transport_error err) = λ w. exit
  parse_tokens (response status body) = do
    let parsed = parse_auth body zero_auth
    tokens ← stamp (parsed.expires_at == 0) parsed
    if lacks_tokens tokens then (λ w. exit) else pure tokens

  -- getAuthTokens
  unfoldable pub get_auth_tokens : String → M host Auth
  unfolding post_form parse_tokens
  get_auth_tokens code = do
    result ← post_form (
        "client_id=" ++ client_id ++ "&redirect_uri=" ++ redirect_url ++ "&code=" ++ code
        ++ "&grant_type=authorization_code")
    parse_tokens result

  -- The end of Refresh. New tokens from the user are written to their own, empty path, and the
  -- shared tokens stay as they are: the program assigns its local pointer.
  pub finish : Bool → Auth → M host (Unit {0})
  unfolding get_auth_code get_auth_tokens to_file
  finish false a = to_file a a.path
  finish true a = do code ← get_auth_code; new ← get_auth_tokens code; to_file new new.path

  -- Refresh, once the request has returned; http.Post gives an error for a URL that it refuses. The deferred Close reads the nil response of a failed
  -- request.
  pub after_post : Auth → HttpResult → M host (Unit {0})
  unfolding stamp parse_auth set_auth lacks_tokens finish
  after_post a no_request = λ w. panic
  after_post a (transport_error err) = if is_offline err then pure tt else (λ w. panic)
  after_post a (response status body) = do
    let parsed = parse_auth body a
    tokens ← stamp (parsed.expires_at == a.expires_at) parsed
    set_auth tokens
    finish (lacks_tokens tokens) tokens

  -- Refresh
  unfoldable pub refresh : M host (Unit {0})
  unfolding post_form after_post
  refresh = do
    w ← get_world
    time ← read_clock
    let renew = do
      result ← post_form (
          "client_id=" ++ client_id ++ "&redirect_uri=" ++ redirect_url ++ "&refresh_token="
          ++ w.auth.refresh_token ++ "&grant_type=refresh_token")
      after_post w.auth result
    if leb w.auth.expires_at time then renew else pure tt
