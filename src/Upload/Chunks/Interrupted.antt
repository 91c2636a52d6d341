-- ===== src/Upload/Chunks/Interrupted.antt =====
-- The upload of a large file while no request gets through.
use onedriver.Prelude.{
  ℕ, suc, ◌-◌, String, true, some, List, [], ◌∷◌, ◌≡◌, ◌≤◌, arith, inl, inr, str_eq, Bool-cases,
}
use onedriver.Item.{HttpRequest, transport_error, started, fail}
use onedriver.Host.{Host}
use onedriver.World.{World, UploadSession, done}
use onedriver.Auth.Fresh.{IsFresh, after_reading, refresh_fresh}
use onedriver.Graph.{request, send_request, retry_once, shared_auth}
use onedriver.Graph.Attempts.{first_request}
use onedriver.Upload.{is_large}
use onedriver.Upload.Chunks.{chunk_count, cancel, retry_chunk, after_chunk, upload_chunks, upload}
use onedriver.Upload.Chunks.Accepted.{IsReady, after_chunk_sent, upload_chunk_sends}

module _ (host : Host) (err : String)
    (down : (sent : List HttpRequest) → host.transport sent ≡ transport_error err) where
  request_down :
      (resource method : String) (w : World host)
      → IsFresh host w
      → (why : String) × (w' : World host) × (request host resource shared_auth method [] w
          ≡ done (fail why) w')
  unfolding request send_request retry_once
  request_down resource method w fresh = elim (Bool-cases (str_eq w.auth.access_token "")) [
    | inl empty ↦ ("Cannot make a request with empty auth", w, simp empty)
    | inr token ↦ (
      err,
      record (after_reading w) { sent = first_request host resource method [] w ∷ w.sent },
      simp (token, refresh_fresh host w fresh, down),
    )
  ]

  cancel_down :
      (u : UploadSession) (w : World host)
      → is_large u.size ≡ true
      → IsFresh host w
      → (w' : World host) × (cancel host u w ≡ done tt w')
  unfolding cancel
  cancel_down u w large fresh =
      let (why, w', run) = request_down u.upload_url "DELETE" w fresh in (w', simp (large, run))

  first_chunk :
      (u : UploadSession) → is_large u.size ≡ true → (n : ℕ) × (chunk_count u.size ≡ suc n)
  unfolding is_large chunk_count
  first_chunk u large = let big : 1 ≤ u.size = ground arith in (chunk_count u.size - 1, omega arith)

  chunks_down :
      (fuel n : ℕ) (u : UploadSession) (w : World host)
      → is_large u.size ≡ true
      → IsReady u
      → IsFresh host w
      → (w' : World host) × (upload_chunks host (suc fuel) u 0 (suc n) w
          ≡ done (some (u.state, some err)) w')
  unfolding upload_chunks retry_chunk after_chunk
  chunks_down fuel n u w large ready fresh =
      let v = after_chunk_sent host u 0 w in
      let fresh₁ : IsFresh host v = record { unexpired = fresh.unexpired } in
      let (w', cancelled) = cancel_down u v large fresh₁ in
      (w', simp (upload_chunk_sends host u 0 w ready fresh (omega arith), down, cancelled))

  -- While no request gets through and the tokens do not expire, the upload of a large snapshot with
  -- a registered session ends with that error, and its session still counts as started.
  pub upload_interrupted :
      (fuel : ℕ) (u : UploadSession) (w : World host)
      → is_large u.size ≡ true
      → IsReady u
      → IsFresh host w
      → (w' : World host) × (upload host (suc fuel) u w ≡ done (some (started, some err)) w')
  unfolding upload
  upload_interrupted fuel u w large ready fresh =
      let v : UploadSession = record u { state = started } in
      let again : IsReady v = record { url = ready.url; whole = ready.whole } in
      let (n, chunks) = first_chunk u large in
      let (w', run) = chunks_down fuel n v w large again fresh in (w', rw (large, chunks) run)
