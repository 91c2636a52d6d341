-- ===== src/Upload/Chunks.antt =====
-- graph/upload_session.go: the upload of a snapshot, whole or in chunks.
pub mod Ranges
pub mod Ends
pub mod Accepted
pub mod Interrupted
pub mod Recovered
pub mod Effects
use Prim.Native.String.{◌++◌}
use onedriver.Prelude.{
  ℕ, zero, suc, ◌+◌, ◌-◌, ◌*◌, ◌/◌, ◌%◌, ◌^◌, String, Option, none, some, [], ◌∷◌, if◌then◌else◌,
  ltb, leb, ◌==◌, str_eq, length, take, drop, decimal,
}
use onedriver.Item.{
  Bytes, Result, ok, fail, HttpRequest, HttpResult, no_request, transport_error, response,
  UploadState, complete, errored, started,
}
use onedriver.Host.{Host}
use onedriver.World.{M, panic, pure, ◌>>=◌, ◌>>◌, send, UploadSession}
use onedriver.Auth.{refresh}
use onedriver.Graph.{shared_auth, put, delete_resource, is_resource_modified}
use onedriver.Upload.{is_large}

abbrev pub chunk_size : ℕ
chunk_size = 10 * 1024 * 1024

-- The end of the chunk at an offset.
pub chunk_end : ℕ → ℕ → ℕ
chunk_end size offset = if ltb size (offset + chunk_size) then size else offset + chunk_size

-- What the program declares as the length of the chunk.
pub declared_length : ℕ → ℕ → ℕ
declared_length size offset =
    if ltb size (offset + chunk_size) then (size + 2 ^ 64 - offset + 1) % 2 ^ 64 else 0

-- `data[offset:end]`
pub chunk_bytes : ℕ → ℕ → Bytes → Bytes
chunk_bytes size offset content = take (chunk_end size offset - offset) (drop offset content)

-- `math.Ceil` of the quotient, which floats give exactly below 2^52 bytes.
pub chunk_count : ℕ → ℕ
chunk_count size = (size + (chunk_size - 1)) / chunk_size

-- The state and error at the end of an upload; `none` means that the fuel for retries ran out.
abbrev pub Ended : Type 0
Ended = Option (UploadState × Option String)

module _ (host : Host) where
  -- The request for one chunk.
  pub chunk_request : UploadSession → ℕ → HttpRequest
  chunk_request u offset =
      let end = chunk_end u.size offset in
      record {
        method = "PUT";
        url = u.upload_url;
        headers =
            ("Content-Length", decimal (declared_length u.size offset))
            ∷ (
              "Content-Range",
              "bytes "
                  ++ decimal offset
                  ++ "-"
                  ++ decimal ((end + 2 ^ 64 - 1) % 2 ^ 64)
                  ++ "/"
                  ++ decimal u.size,
            )
            ∷ [];
        body = chunk_bytes u.size offset u.content;
      }

  -- uploadChunk
  pub upload_chunk : UploadSession → ℕ → M host HttpResult
  upload_chunk u offset = do
    let attempt = do refresh host; send (chunk_request u offset)
    let checked = if leb (chunk_end u.size offset) (length u.content) then attempt else (λ w. panic)
    if str_eq u.upload_url ""
        then pure (transport_error "uploadSession UploadURL cannot be empty")
        else if ltb u.size offset
        then pure (transport_error "offset cannot be larger than DriveItem size")
        else checked

  -- cancel: the request that its goroutine makes.
  pub cancel : UploadSession → M host (Unit {0})
  cancel u = do
    let delete = do ignored ← delete_resource host u.upload_url shared_auth; pure tt
    if is_large u.size then delete else pure tt

  -- The loop of retries after server errors. A nil request has panicked, and a failed request cancels the session.
  pub retry_chunk : ℕ → UploadSession → ℕ → HttpResult → M host (Option HttpResult)
  retry_chunk zero u offset result = pure none
  retry_chunk (suc fuel) u offset no_request = λ w. panic
  retry_chunk (suc fuel) u offset (transport_error err) = pure (some (transport_error err))
  retry_chunk (suc fuel) u offset (response status body) = do
    let again = do next ← upload_chunk u offset; retry_chunk fuel u offset next
    if leb 500 status then again else pure (some (response status body))

  -- What follows a chunk: an error keeps the state, a refusal makes it errored, and otherwise
  -- `rest` follows.
  pub after_chunk : UploadSession → Option HttpResult → M host Ended → M host Ended
  after_chunk u none rest = pure none
  after_chunk u (some no_request) rest = λ w. panic
  after_chunk u (some (transport_error err)) rest = do cancel u; pure (some (u.state, some err))
  after_chunk u (some (response status body)) rest =
      if status == 404
      then pure (some (errored, some "Upload session expired"))
      else if leb 400 status
      then pure (some (errored, some (host.text_of body)))
      else rest

  -- The loop over the chunks from the i-th on, `n` of them, with fuel for the retries of each.
  pub upload_chunks : ℕ → UploadSession → ℕ → ℕ → M host Ended
  upload_chunks fuel u i zero = pure (some (complete, none))
  upload_chunks fuel u i (suc n) = do
    first ← upload_chunk u (i * chunk_size)
    result ← retry_chunk fuel u (i * chunk_size) first
    after_chunk u result (upload_chunks fuel u (i + 1) n)

  small_state : Result Bytes → Ended
  small_state (ok body) = some (complete, none)
  small_state (fail err) = some (errored, some err)

  -- A small file is one request, with one retry.
  pub upload_small : UploadSession → M host Ended
  unfolding small_state
  upload_small u = do
    let resource = "/me/drive/items/" ++ u.id ++ "/content"
    first ← put host resource shared_auth u.content
    let retry = do second ← put host resource shared_auth u.content; pure (small_state second)
    if is_resource_modified host first then retry else pure (small_state first)

  -- Upload
  pub upload : ℕ → UploadSession → M host Ended
  upload fuel u = do
    let v = record u { state = started }
    let chunks = upload_chunks fuel v 0 (chunk_count v.size)
    let small = upload_small v
    if is_large u.size then chunks else small
