-- ===== src/Delta/Poll.antt =====
-- What a poll for changes does to the state of being offline.
use onedriver.Prelude.{ℕ, suc, String, true, false, some, [], ◌∷◌, ◌≡◌, str_eq, ◌+◌}
use onedriver.Item.{transport_error}
use onedriver.Host.{Host}
use onedriver.World.{World, done}
use onedriver.Auth.Fresh.{IsFresh, refresh_fresh}
use onedriver.Graph.{request, send_request, retry_once}
use onedriver.Graph.Attempts.{first_request}
use onedriver.Delta.{poll_deltas, poll_all, apply_all, delta_round}

-- With tokens that have not expired, a round whose first request fails below HTTP marks the file
-- system as offline; apart from the request and the reading of the clock nothing else changes, so
-- the database is not written.
pub delta_round_offline :
    (host : Host) (fuel : ℕ) (w : World host) (err : String)
    → str_eq w.auth.access_token "" ≡ false
    → IsFresh host w
    → host.transport (first_request host w.delta_link "GET" [] w ∷ w.sent) ≡ transport_error err
    → delta_round host (suc fuel) w
      ≡ done (some false) (record w {
        sent = first_request host w.delta_link "GET" [] w ∷ w.sent;
        readings = w.readings + 1;
        offline = true;
      })
unfolding delta_round poll_all poll_deltas apply_all request send_request retry_once
delta_round_offline host fuel w err token fresh down =
    simp (token, refresh_fresh host w fresh, down)
