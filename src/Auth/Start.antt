-- ===== src/Auth/Start.antt =====
-- graph/oauth2.go: the tokens at the start of the program, and the URL that is shown to the user.
use Prim.Native.String.{◌++◌}
use onedriver.Prelude.{String, none, some, if◌then◌else◌}
use onedriver.Item.{Auth}
use onedriver.Host.{Host}
use onedriver.System.{System}
use onedriver.World.{M, ◌>>=◌, ◌>>◌}
use onedriver.Auth.{
  client_id, redirect_url, set_auth, to_file, zero_auth, parse_auth, get_auth_code, get_auth_tokens,
  refresh,
}

abbrev pub auth_code_url : String
auth_code_url = "https://login.microsoftonline.com/common/oauth2/v2.0/authorize"

-- getAuthURL, with the scopes as url.PathEscape writes them.
abbrev pub get_auth_url : String
get_auth_url =
    auth_code_url ++ "?client_id=" ++ client_id
    ++ "&scope=user.read%20files.readwrite.all%20offline_access&response_type=code&redirect_uri="
    ++ redirect_url

module _ (host : Host) (system : System) where
  -- FromFile; a file that cannot be read leaves the tokens alone.
  unfoldable pub from_file : Auth → String → Auth
  from_file a file = elim (system.read_file file) [
    | none ↦ a
    | some contents ↦ parse_auth host contents (record a { path = file })
  ]

  -- Authenticate: the tokens become those that the program shares.
  unfoldable pub authenticate : String → M host (Unit {0})
  authenticate path = do
    let first = do
      code ← get_auth_code host
      auth ← get_auth_tokens host code
      to_file host auth path
      set_auth host auth
    let again = do set_auth host (from_file (zero_auth host) path); refresh host
    if system.exists path then again else first
