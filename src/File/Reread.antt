-- ===== src/File/Reread.antt =====
-- Write, Flush and Read: what was written is read back once it has left the memory.
use onedriver.Prelude.{
  ℕ, ◌+◌, ◌≤◌, true, false, some, none, ◌∷◌, ◌≡◌, refl, ap, ◌∙◌, ==_self, length, max,
}
use onedriver.Item.{Bytes}
use onedriver.Host.{Host, BucketLaws}
use onedriver.World.{Inode, World, Ptr, Slice, UploadSession, done}
use onedriver.Slices.{len, exactly, read_slice}
use onedriver.Slices.Overwrite.{splice, length-splice}
use onedriver.Fields.{is_dir, get_mode, is_local_id}
use onedriver.Cache.Stored.{HasRoom}
use onedriver.Upload.{is_large}
use onedriver.Open.{success, open_file, fill}
use onedriver.File.{read, write, flush, changed, ensure_open, read_errno}
use onedriver.File.Contents.{IsLoaded, after_write, write-splice, read_slice-splice}
use onedriver.File.Saved.{IsWritten, saved_session, open_file-flush}

-- A file whose contents are not in memory is opened by Read.
read_reopens :
    (host : Host) (p : Ptr) (count off : ℕ) (v w : World host) (t : Slice) {bytes : Bytes}
    → (v.heap p).content ≡ none
    → open_file host p 0 v ≡ done success w
    → (w.heap p).content ≡ some t
    → read_slice count off t ≡ some bytes
    → read host p count off v ≡ done (bytes, success) w
unfolding read ensure_open read_errno
read_reopens host p count off v w t closed opened content found =
    simp (closed, opened, content, found)

is_dir-changed : (host : Host) (t : Slice) (i : Inode) → is_dir (changed host t i) ≡ is_dir i
unfolding changed fill is_dir get_mode
is_dir-changed host t i = refl

module _ (host : Host) (p : Ptr) (bytes : Bytes) (offset : ℕ) (w : World host) (s : Slice) where
  after_write-IsWritten :
      (t : Slice)
      → is_large (len t) ≡ false
      → (w.heap p).has_cache ≡ true
      → is_local_id (w.heap p).id ≡ false
      → is_dir (w.heap p) ≡ false
      → IsWritten ((after_write host p w t).heap p) t
  unfolding changed fill
  after_write-IsWritten t small cached known file = record {
    content = rw ==_self;
    size = rw ==_self;
    has_changes = rw ==_self;
    has_cache = rw ==_self cached;
    known = rw ==_self known;
    file = rw ==_self (is_dir-changed host t (w.heap p) ∙ file);
    small = small;
  }

  -- A write at an offset up to the end of a file in memory of a personal drive, which the server
  -- knows and which stays small, in a database that takes values under its id: the Flush after it
  -- succeeds, takes the contents out of memory and queues one session, for this file and with the
  -- contents that the write makes, and a Read at the place of the write then returns its bytes;
  -- none of them sends a request.
  pub read-flush-write :
      BucketLaws host
      → HasRoom host (w.heap p).id
      → IsLoaded (w.heap p) s
      → offset ≤ len s
      → is_large (max (len s) (offset + length bytes)) ≡ false
      → (w.heap p).has_cache ≡ true
      → is_local_id (w.heap p).id ≡ false
      → is_dir (w.heap p) ≡ false
      → w.drive_type ≡ "personal"
      → (u v w' : World host) × (session : UploadSession) × (write host p bytes offset w
          ≡ done (length bytes, success) u)
        × (flush host p u ≡ done success v)
        × ((v.heap p).content ≡ none)
        × (v.queued ≡ some session ∷ w.queued)
        × (session.id ≡ (w.heap p).id)
        × (session.content ≡ splice bytes offset s.elems)
        × (read host p (length bytes) offset v ≡ done (bytes, success) w')
        × (w'.sent ≡ w.sent)
  unfolding changed fill
  read-flush-write laws room loaded fits small cached known file personal =
      let (t, written, e) = write-splice host p bytes offset w s loaded fits in
      let u = after_write host p w t in
      let size : len t ≡ max (len s) (offset + length bytes) =
        ap (length {0}) e ∙ length-splice bytes offset s.elems fits in
      let is = after_write-IsWritten t (rw size small) cached known file in
      let same_id : (u.heap p).id ≡ (w.heap p).id = rw ==_self in
      let (b, put) = room w.content_bucket t.elems in
      let (v, w', flushed, gone, queued, opened, content, _, quiet) =
        open_file-flush host p u t is personal laws {b = b} (rw same_id put) in
      (
        u,
        v,
        w',
        saved_session host p u t,
        written,
        flushed,
        gone,
        queued,
        same_id,
        e,
        read_reopens host p (length bytes) offset v w' (exactly t.elems) gone opened content
            (read_slice-splice bytes offset s (exactly t.elems) fits e),
        quiet,
      )
