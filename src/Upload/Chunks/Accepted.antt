-- ===== src/Upload/Chunks/Accepted.antt =====
-- The upload of a large file to a server that accepts every request.
use onedriver.Prelude.{
  ℕ, zero, suc, ◌+◌, ◌*◌, ◌≤◌, ◌<◌, List, [], ◌∷◌, ◌++◌, ◌≡◌, refl, ◌∙◌, ap, arith, true, false,
  none, some, ltb, leb, ◌==◌, str_eq, length,
}
use mathlib.Core.List.{reverse_aux, flat_map}
use onedriver.Item.{Bytes, HttpRequest, response, started, complete}
use onedriver.Host.{Host}
use onedriver.World.{World, UploadSession, done}
use onedriver.Auth.Fresh.{IsFresh, refresh_fresh}
use onedriver.Upload.{is_large}
use onedriver.Upload.Chunks.{
  chunk_size, chunk_end, chunk_bytes, chunk_count, chunk_request, upload_chunk, retry_chunk,
  after_chunk, upload_chunks, upload,
}
use onedriver.Upload.Chunks.Ranges.{join_chunks, join_chunks_all}

-- A server that answers every request with a status below 400.
pub record Accepts (host : Host) : Type 0 where
  pub status : List HttpRequest → ℕ
  pub body : List HttpRequest → Bytes
  pub answers : (sent : List HttpRequest) → host.transport sent ≡ response (status sent) (body sent)
  pub accepted : (sent : List HttpRequest) → status sent < 400

-- A registered session over the whole snapshot.
pub record IsReady (u : UploadSession) : Type 0 where
  pub url : str_eq u.upload_url "" ≡ false
  pub whole : length u.content ≡ u.size

module _ (host : Host) (u : UploadSession) where
  -- The requests for `n` chunks from the i-th on, in order.
  pub chunk_requests : ℕ → ℕ → List HttpRequest
  chunk_requests i zero = []
  chunk_requests i (suc n) = chunk_request host u (i * chunk_size) ∷ chunk_requests (i + 1) n

  -- Their bodies are the chunks.
  bodies-chunk_requests :
      (i n : ℕ)
      → flat_map (λ (r : HttpRequest). r.body) (chunk_requests i n)
        ≡ join_chunks u.size u.content i n
  unfolding chunk_requests chunk_request join_chunks flat_map
  bodies-chunk_requests i zero = refl
  bodies-chunk_requests i (suc n) =
      ap (λ (rest : Bytes). chunk_bytes u.size (i * chunk_size) u.content ++ rest)
        (bodies-chunk_requests (i + 1) n)

  -- The world after one request.
  abbrev pub after_chunk_sent : ℕ → World host → World host
  after_chunk_sent offset w = record w {
    sent = chunk_request host u offset ∷ w.sent;
    readings = w.readings + 1;
  }

  pub upload_chunk_sends :
      (offset : ℕ) (w : World host)
      → IsReady u
      → IsFresh host w
      → offset ≤ u.size
      → upload_chunk host u offset w
        ≡ done (host.transport (chunk_request host u offset ∷ w.sent)) (after_chunk_sent offset w)
  unfolding upload_chunk chunk_end
  upload_chunk_sends offset w ready fresh h =
      let inside : ltb u.size offset ≡ false = ground arith in
      let fits : leb (chunk_end u.size offset) (length u.content) ≡ true =
        ground (arith, ready.whole) in
      simp (ready.url, inside, fits, refresh_fresh host w fresh)

  -- An accepted chunk is not retried, and the next one follows.
  accepted_chunk :
      (fuel offset i n : ℕ) (w : World host)
      → offset ≡ i * chunk_size
      → IsReady u
      → IsFresh host w
      → Accepts host
      → offset ≤ u.size
      → upload_chunks host (suc fuel) u i (suc n) w
        ≡ upload_chunks host (suc fuel) u (i + 1) n (after_chunk_sent offset w)
  unfolding upload_chunks retry_chunk after_chunk
  accepted_chunk fuel offset i n w e ready fresh server h =
      let sent = chunk_request host u offset ∷ w.sent in
      let low = server.accepted sent in
      let steady : leb 500 (server.status sent) ≡ false = ground arith in
      let found : (server.status sent == 404) ≡ false = ground arith in
      let fine : leb 400 (server.status sent) ≡ false = ground arith in
      simp
        (← e, upload_chunk_sends offset w ready fresh h, server.answers sent, steady, found, fine)

  upload_chunks_accepted :
      (fuel i n : ℕ) (w : World host)
      → IsReady u
      → IsFresh host w
      → Accepts host
      → (i + n) * chunk_size < u.size + chunk_size
      → (w' : World host) × (upload_chunks host (suc fuel) u i n w
          ≡ done (some (complete, none)) w')
        × (w'.sent ≡ reverse_aux (chunk_requests i n) w.sent)
  unfolding chunk_requests
  upload_chunks_accepted fuel i zero w ready fresh server h =
      (w, unfold upload_chunks in refl, refl)
  upload_chunks_accepted fuel i (suc n) w ready fresh server h =
      let offset = i * chunk_size in
      let w₁ = after_chunk_sent offset w in
      let fresh₁ : IsFresh host w₁ = record { unexpired = fresh.unexpired } in
      let (w', run, sent) =
        upload_chunks_accepted fuel (i + 1) n w₁ ready fresh₁ server (omega arith) in
      (w', accepted_chunk fuel offset i n w refl ready fresh server (omega arith) ∙ run, sent)

-- The requests do not depend on the state of the session.
chunk_requests-state :
    (host : Host) (u : UploadSession) (i n : ℕ)
    → chunk_requests host (record u { state = started }) i n ≡ chunk_requests host u i n
unfolding chunk_requests chunk_request
chunk_requests-state host u i zero = refl
chunk_requests-state host u i (suc n) =
    ap (◌∷◌ (chunk_request host u (i * chunk_size))) (chunk_requests-state host u (i + 1) n)

-- A large snapshot that a server accepts, chunk by chunk, while the tokens do not expire, ends as
-- complete and without an error. One round of fuel is enough. The requests sent are those for the
-- chunks, each once and in order, and their bodies make up the snapshot.
pub upload_accepted :
    (host : Host) (u : UploadSession) (fuel : ℕ) (w : World host)
    → is_large u.size ≡ true
    → IsReady u
    → IsFresh host w
    → Accepts host
    → (w' : World host) × (upload host (suc fuel) u w ≡ done (some (complete, none)) w')
      × (w'.sent ≡ reverse_aux (chunk_requests host u 0 (chunk_count u.size)) w.sent)
      × (flat_map (λ (r : HttpRequest). r.body) (chunk_requests host u 0 (chunk_count u.size))
          ≡ u.content)
unfolding upload
upload_accepted host u fuel w large ready fresh server =
    let v : UploadSession = record u { state = started } in
    let again : IsReady v = record { url = ready.url; whole = ready.whole } in
    let n = chunk_count u.size in
    let (w', run, sent) =
      upload_chunks_accepted host v fuel 0 n w again fresh server
        (unfold chunk_count in omega arith) in
    (
      w',
      rw large run,
      sent
          ∙ ap (λ (rs : List HttpRequest). reverse_aux rs w.sent) (chunk_requests-state host u 0 n),
      bodies-chunk_requests host u 0 n ∙ join_chunks_all u.size u.content ready.whole,
    )
