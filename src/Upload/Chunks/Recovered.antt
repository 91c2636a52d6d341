-- ===== src/Upload/Chunks/Recovered.antt =====
-- The upload of a large file to a server that fails for a while.
use onedriver.Prelude.{
  ℕ, zero, suc, ◌+◌, ◌*◌, ◌≤◌, ◌<◌, List, ◌∷◌, ◌≡◌, refl, ◌∙◌, arith, true, false, inl, inr, some,
  none, leb, ◌==◌, length, Bool-cases,
}
use onedriver.Item.{Bytes, HttpRequest, HttpResult, response, started, complete}
use onedriver.Host.{Host}
use onedriver.World.{World, UploadSession, done}
use onedriver.Auth.Fresh.{IsFresh}
use onedriver.Upload.{is_large}
use onedriver.Upload.Chunks.{
  chunk_size, chunk_count, chunk_request, retry_chunk, after_chunk, upload_chunks, upload,
}
use onedriver.Upload.Chunks.Accepted.{IsReady, after_chunk_sent, upload_chunk_sends}

-- A server that answers with a status below 400 or with an error of its own, and that has at most
-- `left` such errors left, counting its answer to the last request.
pub record Recovers (host : Host) : Type 0 where
  pub status : List HttpRequest → ℕ
  pub body : List HttpRequest → Bytes
  pub left : List HttpRequest → ℕ
  pub answers : (sent : List HttpRequest) → host.transport sent ≡ response (status sent) (body sent)
  pub accepted : (sent : List HttpRequest) → leb 500 (status sent) ≡ false → status sent < 400
  pub steady : (r : HttpRequest) (sent : List HttpRequest) → left (r ∷ sent) ≤ left sent
  pub falls :
      (r : HttpRequest) (sent : List HttpRequest)
      → leb 500 (status sent) ≡ true
      → left (r ∷ sent) < left sent

module _ (host : Host) (u : UploadSession) (ready : IsReady u) (server : Recovers host) where
  -- The failures that are left pay for the requests of the retries.
  record IsPaid (before after : List HttpRequest) (more : ℕ) : Type 0 where
    fewer : server.left after ≤ server.left before
    paid : length after + server.left after ≤ more + (length before + server.left before)

  answer : List HttpRequest → HttpResult
  answer sent = response (server.status sent) (server.body sent)

  RetryEnds : ℕ → ℕ → World host → Type 0
  RetryEnds fuel offset w =
      (w' : World host) × (retry_chunk host fuel u offset (answer w.sent) w
        ≡ done (some (answer w'.sent)) w')
      × IsFresh host w'
      × (server.status w'.sent < 400)
      × IsPaid w.sent w'.sent 0

  -- An answer below 500 ends the retries.
  no_retry :
      (fuel offset : ℕ) (w : World host)
      → IsFresh host w
      → leb 500 (server.status w.sent) ≡ false
      → RetryEnds (suc fuel) offset w
  unfolding retry_chunk answer RetryEnds
  no_retry fuel offset w fresh fine = (
    w,
    rw fine refl,
    fresh,
    server.accepted w.sent fine,
    record { fewer = omega arith; paid = omega arith },
  )

  retry_ends :
      (fuel offset : ℕ) (w : World host)
      → IsFresh host w
      → offset ≤ u.size
      → server.left w.sent ≤ fuel
      → RetryEnds (suc fuel) offset w
  unfolding retry_chunk answer RetryEnds
  retry_ends zero offset w fresh h enough = elim (Bool-cases (leb 500 (server.status w.sent))) [
    | inl fails ↦
        absurd (let fall = server.falls (chunk_request host u offset) w.sent fails in omega arith)
    | inr fine ↦ no_retry zero offset w fresh fine
  ]
  retry_ends (suc fuel) offset w fresh h enough =
      elim (Bool-cases (leb 500 (server.status w.sent))) [
        | inl fails ↦
            let r = chunk_request host u offset in
            let fall = server.falls r w.sent fails in
            let w₁ = after_chunk_sent host u offset w in
            let fresh₁ : IsFresh host w₁ = record { unexpired = fresh.unexpired } in
            let (w', run, fresh', low, paid) = retry_ends fuel offset w₁ fresh₁ h (omega arith) in
            (
              w',
              rw fails (
                  rw (upload_chunk_sends host u offset w ready fresh h)
                    (rw (server.answers (r ∷ w.sent)) run)),
              fresh',
              low,
              record { fewer = ground (arith, paid.fewer); paid = ground (arith, paid.paid) },
            )
        | inr fine ↦ no_retry (suc fuel) offset w fresh fine
      ]

  -- A chunk that the server takes in the end is followed by the next one.
  chunk_taken :
      (fuel i n : ℕ) (w w' : World host)
      → IsFresh host w
      → i * chunk_size ≤ u.size
      → (let v = after_chunk_sent host u (i * chunk_size) w in
          retry_chunk host (suc fuel) u (i * chunk_size) (answer v.sent) v
          ≡ done (some (answer w'.sent)) w')
      → server.status w'.sent < 400
      → upload_chunks host (suc fuel) u i (suc n) w ≡ upload_chunks host (suc fuel) u (i + 1) n w'
  unfolding answer upload_chunks after_chunk
  chunk_taken fuel i n w w' fresh h run low =
      let found : (server.status w'.sent == 404) ≡ false = ground arith in
      let fine : leb 400 (server.status w'.sent) ≡ false = ground arith in
      let sent = chunk_request host u (i * chunk_size) ∷ w.sent in
      rw (upload_chunk_sends host u (i * chunk_size) w ready fresh h)
        (rw (server.answers sent) (rw run (rw found (rw fine refl))))

  -- A chunk is repeated until the server takes it, and the next one follows.
  chunk_recovers :
      (fuel i n : ℕ) (w : World host)
      → IsFresh host w
      → i * chunk_size ≤ u.size
      → server.left w.sent ≤ fuel
      → (w' : World host) × (upload_chunks host (suc fuel) u i (suc n) w
          ≡ upload_chunks host (suc fuel) u (i + 1) n w')
        × IsFresh host w'
        × IsPaid w.sent w'.sent 1
  unfolding RetryEnds
  chunk_recovers fuel i n w fresh h enough =
      let offset = i * chunk_size in
      let r = chunk_request host u offset in
      let w₁ = after_chunk_sent host u offset w in
      let fresh₁ : IsFresh host w₁ = record { unexpired = fresh.unexpired } in
      let steady = server.steady r w.sent in
      let (w', run, fresh', low, paid) = retry_ends fuel offset w₁ fresh₁ h (omega arith) in
      (
        w',
        chunk_taken fuel i n w w' fresh h run low,
        fresh',
        record { fewer = ground (arith, paid.fewer); paid = ground (arith, paid.paid) },
      )

  chunks_recover :
      (fuel i n : ℕ) (w : World host)
      → IsFresh host w
      → (i + n) * chunk_size < u.size + chunk_size
      → server.left w.sent ≤ fuel
      → (w' : World host) × (upload_chunks host (suc fuel) u i n w
          ≡ done (some (complete, none)) w')
        × IsPaid w.sent w'.sent n
  chunks_recover fuel i zero w fresh h enough =
      (w, unfold upload_chunks in refl, record { fewer = omega arith; paid = omega arith })
  chunks_recover fuel i (suc n) w fresh h enough =
      let (w₁, step, fresh₁, paid₁) = chunk_recovers fuel i n w fresh (omega arith) enough in
      let fewer = paid₁.fewer in
      let (w', run, paid) = chunks_recover fuel (i + 1) n w₁ fresh₁ (omega arith) (omega arith) in
      (
        w',
        step ∙ run,
        record {
          fewer = ground (arith, paid.fewer, paid₁.fewer);
          paid = ground (arith, paid.paid, paid₁.paid);
        },
      )

-- The upload of a large snapshot with a registered session, to a server that may answer with errors
-- of its own, a bounded number of times, and takes every request otherwise, while the tokens do not
-- expire: with more fuel than such errors the upload ends as complete and without an error, and it
-- sent at most one request for each chunk and one for each such error.
pub upload_recovers :
    (host : Host) (u : UploadSession) (server : Recovers host) (fuel : ℕ) (w : World host)
    → is_large u.size ≡ true
    → IsReady u
    → IsFresh host w
    → server.left w.sent < fuel
    → (w' : World host) × (upload host fuel u w ≡ done (some (complete, none)) w')
      × (length w'.sent ≤ length w.sent + chunk_count u.size + server.left w.sent)
unfolding upload
upload_recovers host u server zero w large ready fresh enough = absurd (omega arith)
upload_recovers host u server (suc fuel) w large ready fresh enough =
    let v : UploadSession = record u { state = started } in
    let again : IsReady v = record { url = ready.url; whole = ready.whole } in
    let (w', run, paid) =
      chunks_recover host v again server fuel 0 (chunk_count u.size) w fresh
        (unfold chunk_count in omega arith) (omega arith) in
    (w', rw large run, ground (arith, paid.paid))
