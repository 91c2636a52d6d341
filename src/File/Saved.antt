-- ===== src/File/Saved.antt =====
-- Flush and Open: what was written comes back from the disk.
use onedriver.Prelude.{
  true, false, Option, none, some, ◌∷◌, ◌≡◌, refl, ap, ◌∙◌, arith, eq_refl, ==_self, length,
  take_all, ◌-◌,
}
use mathlib.Core.List.{append-nil}
use onedriver.Item.{Bytes, Hashes, not_started, ok}
use onedriver.Host.{Host, BucketLaws}
use onedriver.World.{Inode, World, Ptr, Slice, UploadSession, Outcome, done, store, and_then, pure}
use onedriver.Slices.{len, exactly}
use onedriver.Fields.{is_dir, get_mode, is_local_id}
use onedriver.Cache.Content.{get_content, insert_content}
use onedriver.Remote.{need_cache, get_drive_type, remote_id}
use onedriver.Upload.{is_large, queue_upload, new_upload_session, session_of, snapshot}
use onedriver.Hashes.{sha1_hash}
use onedriver.Open.{success, fill, hashes, open_cached, open_closed, open_file}
use onedriver.File.{sync_changes, fsync, flush, store_content, new_hashes}

-- A file with an id of the server that was written to, and is small enough for one request.
pub record IsWritten (i : Inode) (s : Slice) : Type 0 where
  pub content : i.content ≡ some s
  pub size : i.size ≡ len s
  pub has_changes : i.has_changes ≡ true
  pub has_cache : i.has_cache ≡ true
  pub known : is_local_id i.id ≡ false
  pub file : is_dir i ≡ false
  pub small : is_large (len s) ≡ false

-- The snapshot of contents of this size is the contents.
snapshot_whole : (content : Bytes) → snapshot (length content) content ≡ content
unfolding snapshot
snapshot_whole content =
    let none_left : length content - length content ≡ 0 = omega arith in
    rw (none_left, take_all (length content) content (omega arith)) (append-nil content)

module _ (host : Host) (p : Ptr) (w : World host) (s : Slice) where
  -- The inode when Fsync has queued it.
  abbrev pub synced_inode : Inode
  synced_inode = record (w.heap p) {
    item = record (w.heap p).item { file = some (new_hashes host "personal" s.elems) };
    has_changes = false;
  }

  -- The session that Fsync queues.
  abbrev pub saved_session : UploadSession
  saved_session = record {
    id = (w.heap p).id;
    upload_url = "";
    size = len s;
    content = s.elems;
    state = not_started;
  }

  -- What Fsync does to the heap, in two steps.
  abbrev cleared : Ptr → Inode
  cleared = store w.heap p (record (w.heap p) { has_changes = false })

  abbrev hashed : Ptr → Inode
  hashed = store cleared p (record (cleared p) {
    item = record (cleared p).item { file = some (new_hashes host "personal" s.elems) };
  })

  hashed_lem : hashed p ≡ synced_inode
  hashed_lem = rw ==_self

  abbrev pub synced : World host
  synced = record w { heap = hashed; queued = some saved_session ∷ w.queued }

  module _ (h : IsWritten (w.heap p) s) where
    fsync_saves : w.drive_type ≡ "personal" → fsync host p w ≡ done success synced
    unfolding fsync sync_changes get_drive_type queue_upload new_upload_session remote_id session_of
        is_dir get_mode
    fsync_saves personal = simp (
      h.has_changes, ==_self, h.has_cache, personal, h.content, h.file, h.known, h.size, h.small,
      snapshot_whole,
    )

pub need_cache_lem :
    (host : Host) (p : Ptr) (v : World host)
    → (v.heap p).has_cache ≡ true
    → need_cache host p v ≡ done tt v
need_cache_lem host p v cache = rw cache

store_content_lem :
    (host : Host) (p : Ptr) (s : Slice) (v : World host) {b : host.Bucket}
    → (v.heap p).has_cache ≡ true
    → host.bucket_put v.content_bucket (v.heap p).id s.elems ≡ ok b
    → store_content host p (some s) v
      ≡ done tt (record v {
        heap = store v.heap p (record (v.heap p) { content = none });
        content_bucket = b;
      })
unfolding store_content insert_content
store_content_lem host p s v cache put =
    rw (need_cache_lem host p v cache) (rw (put, insert_content))

-- Opening a file of a personal drive for reading, where the disk has contents of its hash.
open_stored :
    (host : Host) (p : Ptr) (v : World host) {content : Bytes} {h : Hashes}
    → (v.heap p).content ≡ none
    → (v.heap p).has_cache ≡ true
    → is_local_id (v.heap p).id ≡ false
    → (v.heap p).file ≡ some h
    → h.sha1_hash ≡ sha1_hash host content
    → v.drive_type ≡ "personal"
    → host.bucket_get v.content_bucket (v.heap p).id ≡ some content
    → open_file host p 0 v
      ≡ done success (record v { heap = store v.heap p (fill (exactly content) (v.heap p)) })
unfolding open_file open_closed open_cached hashes get_drive_type get_content
open_stored host p v closed cache known file same personal there =
    simp (closed, cache, known, file, same, personal, there, eq_refl)

module _ (host : Host) (p : Ptr) (w : World host) (s : Slice) where
  -- The world after Flush, with the contents in the bucket `b`.
  abbrev pub flushed : host.Bucket → World host
  flushed b =
      let v = synced host p w s in
      record v { heap = store v.heap p (record (v.heap p) { content = none }); content_bucket = b }

  module _ (h : IsWritten (w.heap p) s) (personal : w.drive_type ≡ "personal") where
    flush_saves :
        {b : host.Bucket}
        → host.bucket_put w.content_bucket (w.heap p).id s.elems ≡ ok b
        → flush host p w ≡ done success (flushed b)
    unfolding flush
    flush_saves put =
        let v = synced host p w s in
        let end = λ (o : Outcome host (Unit {0})). and_then o (λ _. pure success) in
        let there : (v.heap p).content ≡ some s = rw ==_self h.content in
        rw (fsync_saves host p w s h personal) (
          ap (λ (c : Option Slice). end (store_content host p c v)) there
          ∙ ap end (store_content_lem host p s v (rw ==_self h.has_cache) (rw ==_self put)))

    -- A file of a personal drive that was written to, is known to the server and small, in a
    -- database that takes its contents: Flush takes the contents out of memory and queues one
    -- session with them, and opening the file afterwards, without asking the server, brings them
    -- back.
    pub open_file-flush :
        BucketLaws host
        → {b : host.Bucket} → host.bucket_put w.content_bucket (w.heap p).id s.elems ≡ ok b
        → (v w' : World host) × (flush host p w ≡ done success v)
          × ((v.heap p).content ≡ none)
          × (v.queued ≡ some (saved_session host p w s) ∷ w.queued)
          × (open_file host p 0 v ≡ done success w')
          × ((w'.heap p).content ≡ some (exactly s.elems))
          × ((w'.heap p).size ≡ len s)
          × (w'.sent ≡ w.sent)
    unfolding new_hashes fill
    open_file-flush laws {b} put =
        let v = flushed b in
        (
          v,
          record v { heap = store v.heap p (fill (exactly s.elems) (v.heap p)) },
          flush_saves put,
          rw ==_self,
          refl,
          open_stored host p v {h = new_hashes host "personal" s.elems} (rw ==_self)
              (rw ==_self h.has_cache) (rw ==_self h.known) (rw ==_self) refl personal
              (rw ==_self (laws.get-put_self w.content_bucket b (w.heap p).id s.elems put)),
          rw ==_self,
          rw ==_self,
          refl,
        )
