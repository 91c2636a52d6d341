-- ===== src/Calls/Session.antt =====
-- graph/delta.go and graph/inode.go: the calls, the uploads and the rounds of deltaLoop in any
-- order.
use onedriver.Prelude.{ℕ, String, true, false, some, ◌≡◌, refl, ◌∙◌}
use onedriver.Host.{Host}
use onedriver.World.{Ptr, World, UploadSession, done}
use onedriver.World.Mode.{Same}
use onedriver.Upload.Chunks.{Ended, upload}
use onedriver.Delta.{delta_round}
use onedriver.Delta.Failed.{base, delta_round_failed}
use onedriver.Calls.{Call, with_tree, run_call}
use onedriver.Calls.Mode.{run_call-Same, upload-Same}

-- What may happen while no poll succeeds, one step after the other. Each call finds the tree that
-- go-fuse has by then.
pub data Session (host : Host) (v : World host) : World host → Type 0 where
  idle : Session host v v
  call :
      {u w : World host}
      → Session host v u
      → (tree : Ptr → String) (c : Call) → run_call host c (with_tree host tree u) ≡ done tt w
      → Session host v w
  uploading :
      {u w : World host}
      → Session host v u
      → (fuel : ℕ) (s : UploadSession) (ended : Ended) → upload host fuel s u ≡ done ended w
      → Session host v w
  failed_round :
      {u w : World host}
      → Session host v u
      → (fuel : ℕ) → delta_round host fuel u ≡ done (some false) w
      → Session host v w

module _ {host : Host} where
  Session-base : {v w : World host} → Session host v w → Same base v w
  Session-base idle = refl
  Session-base (call {u} {w} before tree c run) =
      let here = run_call-Same base c (with_tree host tree u) w run in here ∙ Session-base before
  Session-base (uploading {u} {w} before fuel s ended run) =
      let here = upload-Same base fuel s u w ended run in here ∙ Session-base before
  Session-base (failed_round {u} {w} before fuel run) =
      let (_, here) = delta_round_failed fuel u w run in here ∙ Session-base before

  Session-offline : {v w : World host} → Session host v w → v.offline ≡ true → w.offline ≡ true
  Session-offline idle off = off
  Session-offline (call {u} {w} before tree c run) off =
      let here = run_call-Same (λ m. m.offline) c (with_tree host tree u) w run in
      here ∙ Session-offline before off
  Session-offline (uploading {u} {w} before fuel s ended run) off =
      let here = upload-Same (λ m. m.offline) fuel s u w ended run in
      here ∙ Session-offline before off
  Session-offline (failed_round {u} {w} before fuel run) off =
      let (here, _) = delta_round_failed fuel u w run in here

  -- From a file system that is offline, no sequence of calls of the kernel, of uploads and of
  -- rounds whose poll fails leads to one that is online, to one with another root, or to one whose
  -- database has other metadata or another link.
  pub stays_offline :
      (v w : World host) → v.offline ≡ true → Session host v w → (w.offline ≡ true) × Same base v w
  stays_offline v w off session = (Session-offline session off, Session-base session)
