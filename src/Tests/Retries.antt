-- ===== src/Tests/Retries.antt =====
-- Examples for the upload to a server that fails once.
use onedriver.Prelude.{
  ℕ, ◌+◌, ◌≤◌, ◌<◌, List, true, false, leb, none, some, [], ◌∷◌, ◌≡◌, refl, arith, length,
}
use onedriver.Item.{HttpRequest, response, complete}
use onedriver.World.{World, done}
use onedriver.Upload.Chunks.{chunk_count, upload}
use onedriver.Upload.Chunks.Recovered.{Recovers, upload_recovers}
use onedriver.Tests.{sample_host, sample_world, failing_once}
use onedriver.Tests.Uploads.{failing-IsFresh, large, large-IsReady, large-is_large}

-- The server fails at the first chunk.
abbrev failing_left : List HttpRequest → ℕ
failing_left [] = 1
failing_left (r ∷ []) = 1
failing_left (r ∷ s ∷ sent) = 0

abbrev failing_status : List HttpRequest → ℕ
failing_status [] = 200
failing_status (r ∷ []) = 503
failing_status (r ∷ s ∷ sent) = 200

failing-answers : (sent : List HttpRequest) → failing_once sent ≡ response (failing_status sent) []
failing-answers [] = refl
failing-answers (r ∷ []) = refl
failing-answers (r ∷ s ∷ sent) = refl

failing-accepted :
    (sent : List HttpRequest) → leb 500 (failing_status sent) ≡ false → failing_status sent < 400
failing-accepted [] h = omega arith
failing-accepted (r ∷ []) h = cc
failing-accepted (r ∷ s ∷ sent) h = omega arith

failing-steady :
    (r : HttpRequest) (sent : List HttpRequest) → failing_left (r ∷ sent) ≤ failing_left sent
failing-steady r [] = omega arith
failing-steady r (s ∷ []) = omega arith
failing-steady r (s ∷ t ∷ sent) = omega arith

failing-falls :
    (r : HttpRequest) (sent : List HttpRequest)
    → leb 500 (failing_status sent) ≡ true
    → failing_left (r ∷ sent) < failing_left sent
failing-falls r [] h = cc
failing-falls r (s ∷ []) h = omega arith
failing-falls r (s ∷ t ∷ sent) h = cc

abbrev failing_server : Recovers (sample_host failing_once)
failing_server = record {
  status = failing_status;
  body = λ sent. [];
  left = failing_left;
  answers = failing-answers;
  accepted = failing-accepted;
  steady = failing-steady;
  falls = failing-falls;
}

upload_recovers_example :
    (w' : World (sample_host failing_once)) × (upload
        (sample_host failing_once)
        2
        large
        (sample_world failing_once)
      ≡ done (some (complete, none)) w')
    × (length w'.sent ≤ 0 + chunk_count large.size + 1)
upload_recovers_example =
    upload_recovers (sample_host failing_once) large failing_server 2 (sample_world failing_once)
      large-is_large large-IsReady failing-IsFresh (omega arith)
