-- ===== src/Auth/Failures.antt =====
-- A renewal of the tokens that fails below HTTP.
use onedriver.Prelude.{String, ◌∷◌, ◌≡◌, true, false, leb}
use onedriver.Item.{HttpRequest, transport_error}
use onedriver.Host.{Host}
use onedriver.World.{World, panic}
use onedriver.Auth.{is_offline, refresh}

-- Tokens that have expired, where the request for new ones fails with an error that does not count
-- as being offline: Refresh panics.
pub refresh_panics :
    (host : Host) (w : World host) (err : String)
    → leb w.auth.expires_at (host.now w.readings) ≡ true
    → ((r : HttpRequest) → host.transport (r ∷ w.sent) ≡ transport_error err)
    → is_offline err ≡ false
    → refresh host w ≡ panic
unfolding refresh
refresh_panics host w err expired down other = simp (expired, down, other)
