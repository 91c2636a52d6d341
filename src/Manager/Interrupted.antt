-- ===== src/Manager/Interrupted.antt =====
-- From an upload that is interrupted to a session that the manager keeps and never uploads.
use onedriver.Prelude.{ℕ, suc, String, true, false, some, List, ◌≡◌, ==_self}
use onedriver.Item.{HttpRequest, transport_error, started}
use onedriver.Host.{Host}
use onedriver.World.{Ptr, World, done}
use onedriver.Auth.Fresh.{IsFresh}
use onedriver.Upload.{is_large}
use onedriver.Upload.Chunks.{upload}
use onedriver.Upload.Chunks.Accepted.{IsReady}
use onedriver.Upload.Chunks.Interrupted.{upload_interrupted}
use onedriver.Manager.{Manager, set_state, without, finish, has, Reach}
use onedriver.Manager.Stuck.{IsStuck, Reach-IsStuck}

-- The only goroutine of a session ends with its upload as started.
finish_started-IsStuck :
    (p : Ptr) (m : Manager)
    → has p m.launched ≡ false
    → has p (without p m.running) ≡ false
    → IsStuck p (finish p started m)
unfolding finish set_state
finish_started-IsStuck p m launched running = record {
  state = rw ==_self;
  launched = launched;
  running = running;
}

-- While no request gets through and the tokens do not expire, the upload of a large snapshot with a
-- registered session ends with that error as started; in every state that the loop and the
-- goroutines reach after its goroutine, the only one of that session, has ended so, the session
-- counts as started and no goroutine uploads it.
pub upload_interrupted-IsStuck :
    (host : Host) (err : String)
    → ((sent : List HttpRequest) → host.transport sent ≡ transport_error err)
    → (fuel : ℕ) (p : Ptr) (m : Manager) (w : World host) → is_large (m.memory p).size ≡ true
    → IsReady (m.memory p)
    → IsFresh host w
    → has p m.launched ≡ false
    → has p (without p m.running) ≡ false
    → (n : Manager) → Reach (finish p started m) n
    → (w' : World host) × (upload host (suc fuel) (m.memory p) w
        ≡ done (some (started, some err)) w')
      × IsStuck p n
upload_interrupted-IsStuck host err down fuel p m w large ready fresh launched running n reach =
    let (w', run) = upload_interrupted host err down fuel (m.memory p) w large ready fresh in
    (w', run, Reach-IsStuck p (finish_started-IsStuck p m launched running) reach)
