-- ===== src/Tests/Uploads.antt =====
-- Examples for uploads, their manager and the requests.
use onedriver.Prelude.{
  ℕ, true, none, some, [], ◌∷◌, ◌≡◌, ◌≢◌, refl, arith, length, replicate, length-replicate, lookup,
  insert,
}
use mathlib.Core.List.{reverse_aux, flat_map}
use onedriver.Item.{Bytes, HttpRequest, not_started, complete}
use onedriver.World.{World, Ptr, UploadSession, done}
use onedriver.Auth.Fresh.{IsFresh}
use onedriver.Upload.{is_large}
use onedriver.Upload.Chunks.{chunk_count, chunk_bytes, declared_length, upload}
use onedriver.Upload.Chunks.Ranges.{declared_length-ne-length}
use onedriver.Upload.Chunks.Accepted.{Accepts, IsReady, chunk_requests, upload_accepted}
use onedriver.Upload.Chunks.Ends.{Ends}
use onedriver.Manager.{
  Manager, cancel_old, new_manager, receive, tick, begin, finish, Reach, here, next, receives,
  ticks, begins, finishes, has, tick_list, tick_session,
}
use onedriver.Manager.Sessions.{IsTidy, Reach-IsTidy}
use onedriver.Tests.{sample_host, sample_world, willing, failing_once}

pub sample-IsFresh : IsFresh (sample_host willing) (sample_world willing)
sample-IsFresh = record { unexpired = λ n. omega arith }

pub failing-IsFresh : IsFresh (sample_host failing_once) (sample_world failing_once)
failing-IsFresh = record { unexpired = λ n. omega arith }

declared_length-ne-length_example : declared_length 3 0 ≢ length (chunk_bytes 3 0 (1 ∷ 2 ∷ 3 ∷ []))
declared_length-ne-length_example =
    declared_length-ne-length (1 ∷ 2 ∷ 3 ∷ []) 0 (omega arith) (omega arith)

sevens : ℕ → Bytes
sevens n = replicate n 7

length-sevens : (n : ℕ) → length (sevens n) ≡ n
unfolding sevens
length-sevens n = length-replicate n 7

-- Twenty-one million bytes: three chunks.
pub large : UploadSession
large = record {
  id = "F";
  upload_url = "https://upload";
  size = 21000000;
  content = sevens 21000000;
  state = not_started;
}

pub large-IsReady : IsReady large
unfolding large
large-IsReady = record { url = refl; whole = length-sevens 21000000 }

willing-Accepts : Accepts (sample_host willing)
willing-Accepts = record {
  status = λ sent. 200;
  body = λ sent. [];
  answers = λ sent. refl;
  accepted = λ sent. omega arith;
}

pub large-is_large : is_large large.size ≡ true
unfolding large is_large
large-is_large = refl

upload_accepted_example :
    (w' : World (sample_host willing)) × (upload
        (sample_host willing)
        1
        large
        (sample_world willing)
      ≡ done (some (complete, none)) w')
    × (w'.sent
        ≡ reverse_aux (chunk_requests (sample_host willing) large 0 (chunk_count large.size)) [])
    × (flat_map
          (λ (r : HttpRequest). r.body)
          (chunk_requests (sample_host willing) large 0 (chunk_count large.size))
        ≡ large.content)
upload_accepted_example =
    upload_accepted (sample_host willing) large 0 (sample_world willing) large-is_large
      large-IsReady sample-IsFresh willing-Accepts

-- Two sessions of the same item.
unfoldable pub two_sessions : Ptr → UploadSession
two_sessions p = record {
  id = "F";
  upload_url = "";
  size = p;
  content = replicate p 0;
  state = not_started;
}

-- The second session replaces the first, is started and completes.
first_received : Manager
first_received = receive 1 (new_manager two_sessions)

both_received : Manager
both_received = receive 2 first_received

all_done : Manager
all_done = finish 2 complete (begin 2 (tick both_received))

Reach-all_done : Reach (new_manager two_sessions) all_done
unfolding all_done both_received first_received two_sessions has tick tick_list tick_session receive
    cancel_old insert lookup is_large begin
Reach-all_done =
    next (next (next (next (next here (receives 1)) (receives 2)) ticks) (begins 2 launched))
      (finishes 2 complete running)
  where
    launched : has 2 (tick (receive 2 (receive 1 (new_manager two_sessions)))).launched ≡ true
    launched = refl

    running :
        has 2 (begin 2 (tick (receive 2 (receive 1 (new_manager two_sessions))))).running ≡ true
    running = refl

Reach-IsTidy_example : IsTidy all_done
Reach-IsTidy_example = Reach-IsTidy {m = new_manager two_sessions} {n = all_done} tt Reach-all_done
