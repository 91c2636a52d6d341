-- ===== src/Graph/Attempts.antt =====
-- How often Request asks the server, and with what.
use Prim.Native.String.{◌++◌}
use onedriver.Prelude.{ℕ, String, false, ◌∷◌, ◌≡◌, leb, str_eq}
use onedriver.Item.{Bytes, HttpRequest, response, transport_error, fail}
use onedriver.Host.{Host}
use onedriver.World.{World, done}
use onedriver.Auth.Fresh.{IsFresh, after_reading, refresh_fresh}
use onedriver.Graph.{
  shared_auth, graph_url, request_headers, request, send_request, retry_once, read_result,
  read_response,
}

module _ (host : Host) (resource method : String) (content : Bytes) (w : World host) where
  -- The request that goes out first.
  abbrev pub first_request : HttpRequest
  first_request = record {
    method = method;
    url = graph_url ++ resource;
    headers = request_headers w.auth.access_token method;
    body = content;
  }

  -- With tokens that have not expired, a request that fails below HTTP is the only one.
  pub request_down :
      {err : String}
      → str_eq w.auth.access_token "" ≡ false
      → IsFresh host w
      → host.transport (first_request ∷ w.sent) ≡ transport_error err
      → request host resource shared_auth method content w
        ≡ done (fail err) (record (after_reading w) { sent = first_request ∷ w.sent })
  unfolding request send_request retry_once
  request_down token fresh down = simp (token, refresh_fresh host w fresh, down)

  -- With tokens that have not expired, an answer below 500 is the only one, and it decides.
  pub request_once :
      {status : ℕ} {body : Bytes}
      → str_eq w.auth.access_token "" ≡ false
      → IsFresh host w
      → host.transport (first_request ∷ w.sent) ≡ response status body
      → leb 500 status ≡ false
      → request host resource shared_auth method content w
        ≡ done
            (read_response host status body)
            (record (after_reading w) { sent = first_request ∷ w.sent })
  unfolding request send_request retry_once read_result
  request_once token fresh answer steady = simp (token, refresh_fresh host w fresh, answer, steady)
