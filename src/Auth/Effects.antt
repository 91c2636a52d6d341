-- ===== src/Auth/Effects.antt =====
-- The effects of the renewal of tokens.
use onedriver.Prelude.{String, Bool, true, false}
use onedriver.Item.{Auth, HttpResult, no_request, transport_error, response}
use onedriver.Host.{Host}
use onedriver.World.{World}
use onedriver.World.Effects.{Effects, Respects, effect_rules}
use onedriver.Auth.{
  set_auth, to_file, get_auth_code, post_form, stamp, parse_tokens, get_auth_tokens, finish,
  after_post, refresh,
}

module _ {host : Host} {R : World host → World host → Type 0} (e : Effects host R) where
  set_auth-Respects : (a : Auth) → Respects R (set_auth host a)
  unfolding set_auth
  set_auth-Respects a = record { at = λ w. e.auth w a }

  to_file-Respects : (a : Auth) (file : String) → Respects R (to_file host a file)
  unfolding to_file
  to_file-Respects a file = record { at = λ w. e.token_file w _ }

  get_auth_code-Respects : Respects R (get_auth_code host)
  unfolding get_auth_code
  get_auth_code-Respects = search (effect_rules, e)

  post_form-Respects : (form : String) → Respects R (post_form host form)
  unfolding post_form
  post_form-Respects form = search (effect_rules, e)

  stamp-Respects : (b : Bool) (a : Auth) → Respects R (stamp host b a)
  unfolding stamp
  stamp-Respects false a = search (effect_rules, e)
  stamp-Respects true a = search (effect_rules, e)

  parse_tokens-Respects : (r : HttpResult) → Respects R (parse_tokens host r)
  unfolding parse_tokens
  parse_tokens-Respects no_request = search (effect_rules, e)
  parse_tokens-Respects (transport_error err) = search (effect_rules, e)
  parse_tokens-Respects (response status body) = search (effect_rules, e, stamp-Respects)

  get_auth_tokens-Respects : (code : String) → Respects R (get_auth_tokens host code)
  unfolding get_auth_tokens
  get_auth_tokens-Respects code = search (effect_rules, e, parse_tokens-Respects)

  finish-Respects : (b : Bool) (a : Auth) → Respects R (finish host b a)
  unfolding finish
  finish-Respects false a = search (effect_rules, to_file-Respects)
  finish-Respects true a =
      search (effect_rules, e, to_file-Respects, get_auth_code-Respects, get_auth_tokens-Respects)

  after_post-Respects : (a : Auth) (r : HttpResult) → Respects R (after_post host a r)
  unfolding after_post
  after_post-Respects a no_request = search (effect_rules, e)
  after_post-Respects a (transport_error err) = search (effect_rules, e)
  after_post-Respects a (response status body) =
      search (effect_rules, e, stamp-Respects, set_auth-Respects, finish-Respects)

  pub refresh-Respects : Respects R (refresh host)
  unfolding refresh
  refresh-Respects = search (effect_rules, e, after_post-Respects)
