-- ===== src/Manager.antt =====
-- graph/upload_manager.go: the loop that starts uploads and forgets those that have ended. Sessions
-- live at addresses, which the loop shares with the goroutines that upload them.
pub mod Sessions
pub mod Stuck
pub mod Ticks
pub mod Overtaken
pub mod Interrupted
use onedriver.Prelude.{
  String, Bool, true, false, Option, none, some, List, [], ◌∷◌, if◌then◌else◌, ◌==◌, lookup, insert,
  delete, ◌≡◌,
}
use onedriver.Item.{UploadState, not_started, started, complete, errored}
use onedriver.World.{Ptr, UploadSession}
use onedriver.Upload.{is_large}

-- UploadManager with the sessions' memory, the goroutines that were started and have not begun
-- (`launched`, last first), those that upload, and the URLs that were cancelled (last first).
pub record Manager : Type 0 where
  pub memory : Ptr → UploadSession
  pub sessions : List (String × Ptr)
  pub launched : List Ptr
  pub running : List Ptr
  pub cancelled : List String

-- NewUploadManager
abbrev pub new_manager : (Ptr → UploadSession) → Manager
new_manager memory = record {
  memory = memory;
  sessions = [];
  launched = [];
  running = [];
  cancelled = [];
}

-- setState
unfoldable pub set_state : (Ptr → UploadSession) → Ptr → UploadState → Ptr → UploadSession
set_state memory p state q = if p == q then record (memory q) { state = state } else memory q

-- `old.cancel(...)`, which does nothing for a small file.
unfoldable pub cancel_old : Manager → Option Ptr → Manager
cancel_old m none = m
cancel_old m (some p) =
    if is_large (m.memory p).size
    then record m { cancelled = (m.memory p).upload_url ∷ m.cancelled }
    else m

-- The loop takes a session from the queue: an older one for the same item is cancelled. At a nil
-- session, which the queue may hold, the loop panics, so that there is no step for it.
unfoldable pub receive : Ptr → Manager → Manager
receive p m =
    let id = (m.memory p).id in
    let rest = cancel_old m (lookup id m.sessions) in
    record rest { sessions = insert id p m.sessions }

-- What a tick does with one session.
unfoldable pub tick_session : String × Ptr → Manager → Manager
tick_session (id, p) m = elim (m.memory p).state [
  | not_started ↦ record m { launched = p ∷ m.launched }
  | started ↦ m
  | complete ↦ record m { sessions = delete (m.memory p).id m.sessions }
  | errored ↦ record m { sessions = delete (m.memory p).id m.sessions }
]

unfoldable pub tick_list : List (String × Ptr) → Manager → Manager
tick_list [] m = m
tick_list (entry ∷ entries) m = tick_list entries (tick_session entry m)

-- A tick of the clock: the loop over the sessions.
unfoldable pub tick : Manager → Manager
tick m = tick_list m.sessions m

-- One goroutine, out of a list of them.
unfoldable pub without : Ptr → List Ptr → List Ptr
without p [] = []
without p (q ∷ qs) = if p == q then qs else q ∷ without p qs

-- A goroutine begins to upload, and ends with the state that Upload leaves.
unfoldable pub begin : Ptr → Manager → Manager
begin p m = record m {
  memory = set_state m.memory p started;
  launched = without p m.launched;
  running = p ∷ m.running;
}

unfoldable pub finish : Ptr → UploadState → Manager → Manager
finish p state m = record m { memory = set_state m.memory p state; running = without p m.running }

-- Whether a list of goroutines has one.
unfoldable pub has : Ptr → List Ptr → Bool
has p [] = false
has p (q ∷ qs) = if p == q then true else has p qs

-- The loop and the goroutines, one step at a time, in any order.
pub data Step (m : Manager) : Manager → Type 0 where
  receives : (p : Ptr) → Step m (receive p m)
  ticks : Step m (tick m)
  begins : (p : Ptr) → has p m.launched ≡ true → Step m (begin p m)
  finishes : (p : Ptr) (state : UploadState) → has p m.running ≡ true → Step m (finish p state m)

pub data Reach (m : Manager) : Manager → Type 0 where
  here : Reach m m
  next : {n o : Manager} → Reach m n → Step n o → Reach m o
