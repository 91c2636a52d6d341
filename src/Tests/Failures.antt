-- ===== src/Tests/Failures.antt =====
-- Examples in which requests fail below HTTP, and sessions that are left behind.
use onedriver.Prelude.{some, List, [], ◌∷◌, ◌≡◌, refl, arith}
use onedriver.Item.{HttpRequest, HttpResult, transport_error, started}
use onedriver.World.{World, done}
use onedriver.Auth.Fresh.{IsFresh}
use onedriver.Upload.Chunks.{upload}
use onedriver.Manager.Interrupted.{upload_interrupted-IsStuck}
use onedriver.Manager.{
  without, finish, Manager, new_manager, tick, here, next, ticks, set_state, has,
}
use onedriver.Manager.Stuck.{IsStuck, Reach-IsStuck}
use onedriver.Tests.{sample_host, sample_world}
use onedriver.Tests.Uploads.{large, large-IsReady, large-is_large, two_sessions}

abbrev pub broken : List HttpRequest → HttpResult
broken sent = transport_error "reset"

broken-IsFresh : IsFresh (sample_host broken) (sample_world broken)
broken-IsFresh = record { unexpired = λ n. omega arith }

-- A manager whose one goroutine uploads a large session.
abbrev uploading : Manager
uploading = record (new_manager (λ p. large)) { sessions = ("F", 1) ∷ []; running = 1 ∷ [] }

upload_interrupted-IsStuck_example :
    (w' : World (sample_host broken)) × (upload (sample_host broken) 1 large (sample_world broken)
      ≡ done (some (started, some "reset")) w')
    × IsStuck 1 (tick (finish 1 started uploading))
unfolding has without
upload_interrupted-IsStuck_example =
    upload_interrupted-IsStuck (sample_host broken) "reset" (λ sent. refl) 0 1 uploading
      (sample_world broken) large-is_large large-IsReady broken-IsFresh refl refl
      (tick (finish 1 started uploading)) (next here ticks)

-- The manager has a session whose upload returned as started.
left_behind : Manager
left_behind = record (new_manager (set_state two_sessions 1 started)) { sessions = ("F", 1) ∷ [] }

left_behind-IsStuck : IsStuck 1 left_behind
unfolding left_behind two_sessions set_state has
left_behind-IsStuck = record { state = refl; launched = refl; running = refl }

Reach-IsStuck_example : IsStuck 1 (tick (tick left_behind))
Reach-IsStuck_example =
    Reach-IsStuck 1 {m = left_behind} {n = tick (tick left_behind)} left_behind-IsStuck
      (next (next here ticks) ticks)
