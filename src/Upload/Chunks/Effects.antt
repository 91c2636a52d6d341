-- ===== src/Upload/Chunks/Effects.antt =====
-- The effects of an upload.
use onedriver.Prelude.{ℕ, zero, suc, ◌+◌, ◌*◌, ◌==◌, Option, none, some, leb}
use onedriver.Item.{HttpResult, no_request, transport_error, response}
use onedriver.Host.{Host}
use onedriver.World.{UploadSession, World, M}
use onedriver.World.Effects.{
  Effects, Respects, Respects-bind, Respects-if, Respects-pure, effect_rules,
}
use onedriver.Auth.Effects.{refresh-Respects}
use onedriver.Graph.Effects.{request-Respects}
use onedriver.Upload.Chunks.{
  Ended, chunk_size, upload_chunk, cancel, retry_chunk, after_chunk, upload_chunks, upload_small,
  upload,
}

module _ {host : Host} {R : World host → World host → Type 0} (e : Effects host R) where
  upload_chunk-Respects : (u : UploadSession) (offset : ℕ) → Respects R (upload_chunk host u offset)
  unfolding upload_chunk
  upload_chunk-Respects u offset = search (effect_rules, e, refresh-Respects) depth 9

  cancel-Respects : (u : UploadSession) → Respects R (cancel host u)
  unfolding cancel
  cancel-Respects u = search (effect_rules, e, request-Respects) depth 9

  retry_chunk-Respects :
      (fuel : ℕ) (u : UploadSession) (offset : ℕ) (result : HttpResult)
      → Respects R (retry_chunk host fuel u offset result)
  unfolding retry_chunk
  retry_chunk-Respects zero u offset result = search (effect_rules, e)
  retry_chunk-Respects (suc fuel) u offset no_request = search (effect_rules, e)
  retry_chunk-Respects (suc fuel) u offset (transport_error err) = search (effect_rules, e)
  retry_chunk-Respects (suc fuel) u offset (response status body) =
      search (effect_rules, e, upload_chunk-Respects, retry_chunk-Respects fuel u offset)

  after_chunk-Respects :
      (u : UploadSession) (result : Option HttpResult) (rest : M host Ended)
      → Respects R rest
      → Respects R (after_chunk host u result rest)
  unfolding after_chunk
  after_chunk-Respects u none rest h = search (effect_rules, e)
  after_chunk-Respects u (some no_request) rest h = search (effect_rules, e)
  after_chunk-Respects u (some (transport_error err)) rest h =
      search (effect_rules, e, cancel-Respects)
  after_chunk-Respects u (some (response status body)) rest h =
      Respects-if e (status == 404) _ _ (Respects-pure e _)
        (Respects-if e (leb 400 status) _ rest (Respects-pure e _) h)

  upload_chunks-Respects :
      (fuel : ℕ) (u : UploadSession) (i n : ℕ) → Respects R (upload_chunks host fuel u i n)
  unfolding upload_chunks
  upload_chunks-Respects fuel u i zero = search (effect_rules, e)
  upload_chunks-Respects fuel u i (suc n) =
      Respects-bind e (upload_chunk host u (i * chunk_size)) _
        (upload_chunk-Respects u (i * chunk_size))
        (λ first.
          Respects-bind e (retry_chunk host fuel u (i * chunk_size) first) _
            (retry_chunk-Respects fuel u (i * chunk_size) first)
            (λ result.
              after_chunk-Respects u result (upload_chunks host fuel u (i + 1) n)
                (upload_chunks-Respects fuel u (i + 1) n)))

  upload_small-Respects : (u : UploadSession) → Respects R (upload_small host u)
  unfolding upload_small
  upload_small-Respects u = search (effect_rules, e, request-Respects) depth 9

  pub upload-Respects : (fuel : ℕ) (u : UploadSession) → Respects R (upload host fuel u)
  unfolding upload
  upload-Respects fuel u = search (effect_rules, e, upload_chunks-Respects, upload_small-Respects)
