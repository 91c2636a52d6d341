-- ===== src/Auth/Login.antt =====
-- The first login, and the renewal of tokens that have expired.
use Prim.Native.String.{◌++◌}
use onedriver.Prelude.{
  ℕ, ◌+◌, String, true, false, inl, inr, ◌∷◌, [], ◌≡◌, refl, leb, ◌==◌, str_eq, if◌then◌else◌,
  Bool-cases,
}
use onedriver.Item.{Bytes, Auth, HttpRequest, response}
use onedriver.Host.{Host}
use onedriver.System.{System}
use onedriver.World.{World, done}
use onedriver.Auth.{
  client_id, redirect_url, token_url, zero_auth, parse_auth, set_auth, to_file, lacks_tokens,
  refresh, get_auth_code, get_auth_tokens,
}
use onedriver.Auth.Fresh.{after_reading}
use onedriver.Auth.Code.{find_code}
use onedriver.Auth.Start.{authenticate}

module _ (host : Host) where
  -- The tokens that the server sent in a body, over those that were there, and their end: that of
  -- the body, or a lifetime from a reading of the clock on where the body has none.
  pub record AreTokens (body : Bytes) (old : Auth) (reading : ℕ) (new : Auth) : Type 0 where
    pub access : new.access_token ≡ (parse_auth host body old).access_token
    pub refreshing : new.refresh_token ≡ (parse_auth host body old).refresh_token
    pub path : new.path ≡ old.path
    pub expiry : new.expires_at ≡ (
        if (parse_auth host body old).expires_at == old.expires_at
        then host.now reading + (parse_auth host body old).expires_in
        else (parse_auth host body old).expires_at)

  -- A POST to the token endpoint.
  abbrev pub token_request : String → HttpRequest
  token_request form = record {
    method = "POST";
    url = token_url;
    headers = ("Content-Type", "application/x-www-form-urlencoded") ∷ [];
    body = host.bytes_of form;
  }

  abbrev pub renewal_form : World host → String
  renewal_form w =
      "client_id=" ++ client_id ++ "&redirect_uri=" ++ redirect_url ++ "&refresh_token="
      ++ w.auth.refresh_token ++ "&grant_type=refresh_token"

  -- Tokens that have expired, and a server that answers the request for new ones with a body that
  -- has an access token and a refresh token, or leaves the old ones: these are the tokens from now
  -- on, with the path of the old ones, and the file of that path gets them.
  pub refresh_renews :
      (w : World host) {status : ℕ} {body : Bytes}
      → leb w.auth.expires_at (host.now w.readings) ≡ true
      → host.transport (token_request (renewal_form w) ∷ w.sent) ≡ response status body
      → lacks_tokens host (parse_auth host body w.auth) ≡ false
      → (w' : World host) × (refresh host w ≡ done tt w')
        × AreTokens body w.auth (w.readings + 1) w'.auth
        × (w'.token_files ≡ (w.auth.path, w'.auth) ∷ w.token_files)
  unfolding refresh parse_auth
  refresh_renews w {status} {body} expired answer complete =
      let read : World host = record (after_reading w) {
        sent = token_request (renewal_form w) ∷ w.sent;
      } in
      let new = parse_auth host body w.auth in
      elim (Bool-cases (new.expires_at == w.auth.expires_at)) [
        | inl same ↦
            let t = record new { expires_at = host.now (w.readings + 1) + new.expires_in } in
            (
              record (after_reading read) { auth = t; token_files = (t.path, t) ∷ w.token_files },
              rw expired (rw answer (rw same (rw complete refl))),
              record { access = refl; refreshing = refl; path = refl; expiry = rw same refl },
              refl,
            )
        | inr sent ↦ (
          record read { auth = new; token_files = (new.path, new) ∷ w.token_files },
          rw expired (rw answer (rw sent (rw complete refl))),
          record { access = refl; refreshing = refl; path = refl; expiry = rw sent refl },
          refl,
        )
      ]

  abbrev pub login_form : String → String
  login_form code =
      "client_id=" ++ client_id ++ "&redirect_uri=" ++ redirect_url ++ "&code=" ++ code
      ++ "&grant_type=authorization_code"

  -- The first login, where the file of the tokens is missing, the text that the user gives has a
  -- code, and the server answers the request for tokens with a body that has both: the file gets
  -- these tokens with its path, and the program goes on with the same tokens and an empty path.
  pub authenticate_pathless :
      (system : System) (path : String) (w : World host) {status : ℕ} {body : Bytes}
      → system.exists path ≡ false
      → (let code = find_code (host.auth_response w.sent) in
          (str_eq code "" ≡ false)
          × (host.transport (token_request (login_form code) ∷ w.sent) ≡ response status body))
      → lacks_tokens host (parse_auth host body (zero_auth host)) ≡ false
      → (w' : World host) × (authenticate host system path w ≡ done tt w')
        × AreTokens body (zero_auth host) w.readings w'.auth
        × (w'.auth.path ≡ "")
        × (w'.token_files ≡ (path, record w'.auth { path = path }) ∷ w.token_files)
  unfolding authenticate get_auth_code get_auth_tokens parse_auth set_auth to_file
  authenticate_pathless system path w {status} {body} missing (given, answer) complete =
      let read : World host = record w {
        sent = token_request (login_form (find_code (host.auth_response w.sent))) ∷ w.sent;
      } in
      let new = parse_auth host body (zero_auth host) in
      elim (Bool-cases (new.expires_at == 0)) [
        | inl same ↦
            let t = record new { expires_at = host.now w.readings + new.expires_in } in
            (
              record (after_reading read) {
                auth = t;
                token_files = (path, record t { path = path }) ∷ w.token_files;
              },
              rw missing (rw given (rw answer (rw same (rw complete refl)))),
              record { access = refl; refreshing = refl; path = refl; expiry = rw same refl },
              refl,
              refl,
            )
        | inr sent ↦ (
          record read {
            auth = new;
            token_files = (path, record new { path = path }) ∷ w.token_files;
          },
          rw missing (rw given (rw answer (rw sent (rw complete refl)))),
          record { access = refl; refreshing = refl; path = refl; expiry = rw sent refl },
          refl,
          refl,
        )
      ]
