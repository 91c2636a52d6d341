-- ===== src/File/Contents.antt =====
-- Write and Read of a file that is in memory.
use onedriver.Prelude.{
  ℕ, ◌+◌, ◌≤◌, ◌<◌, some, false, ap, ◌-◌, ◌∙◌, ◌≡◌, refl, arith, if◌then◌else◌, ltb, ◌==◌, ==_self,
  length, drop, min, max, take-append_self, drop,
}
use onedriver.Item.{Bytes}
use onedriver.Host.{Host}
use onedriver.World.{Inode, World, Ptr, Slice, done, panic}
use onedriver.Slices.{len, cap, read_slice}
use onedriver.Slices.Overwrite.{
  splice, overwrite-splice, overwrite-none, length-splice, drop-splice,
}
use onedriver.Open.{success, fill}
use onedriver.File.{read, write, changed}

-- The file is in memory, and its size is that of its contents.
pub record IsLoaded (i : Inode) (s : Slice) : Type 0 where
  pub content : i.content ≡ some s
  pub size : i.size ≡ len s

module _ (host : Host) (p : Ptr) (w : World host) where
  abbrev pub after_write : Slice → World host
  after_write t = record w { heap = λ q. if p == q then changed host t (w.heap p) else w.heap q }

module _ (host : Host) (p : Ptr) (bytes : Bytes) (offset : ℕ) (w : World host) (s : Slice) where
  -- Write at an offset up to the end of a file in memory changes this file alone; its contents are
  -- the reference and its size is theirs.
  pub write-splice :
      IsLoaded (w.heap p) s
      → offset ≤ len s
      → (t : Slice) × (write host p bytes offset w
          ≡ done (length bytes, success) (after_write host p w t))
        × (t.elems ≡ splice bytes offset s.elems)
  unfolding write changed
  write-splice h fits =
      let (t, written, e) = overwrite-splice host bytes offset s fits in
      (t, simp (h.content, h.size, written), e)

-- The bytes of a write are what a read at its place returns.
pub read_slice-splice :
    (bytes : Bytes) (offset : ℕ) (s t : Slice)
    → offset ≤ len s
    → t.elems ≡ splice bytes offset s.elems
    → read_slice (length bytes) offset t ≡ some bytes
unfolding read_slice
read_slice-splice bytes offset s t h e =
    let size : len t ≡ max (len s) (offset + length bytes) =
      ap (length {0}) e ∙ length-splice bytes offset s.elems h in
    let count : min (offset + length bytes) (len t) - offset ≡ length bytes = omega arith in
    let fits : ltb (len t) offset ≡ false = ground arith in
    rw (fits, count, e, drop-splice bytes offset s.elems h)
      (ap some (take-append_self (length bytes) bytes (drop (offset + length bytes) s.elems) refl))

module _ (host : Host) (p : Ptr) (w : World host) (t : Slice) where
  -- Read of a file in memory changes nothing.
  pub read_loaded :
      (count off : ℕ) {bytes : Bytes}
      → (w.heap p).content ≡ some t
      → read_slice count off t ≡ some bytes
      → read host p count off w ≡ done (bytes, success) w
  unfolding read
  read_loaded count off h e = simp (h, e)

module _ (host : Host) (p : Ptr) (bytes : Bytes) (offset : ℕ) (w : World host) (s : Slice) where
  -- For a write at an offset up to the end of a file in memory, a read at its place returns its
  -- bytes; the write keeps the file's size in step with its contents, and the size is the larger of
  -- the old one and the end of the write.
  pub write-read :
      IsLoaded (w.heap p) s
      → offset ≤ len s
      → (t : Slice) × (write host p bytes offset w
          ≡ done (length bytes, success) (after_write host p w t))
        × (read host p (length bytes) offset (after_write host p w t)
            ≡ done (bytes, success) (after_write host p w t))
        × IsLoaded ((after_write host p w t).heap p) t
        × (len t ≡ max (len s) (offset + length bytes))
  unfolding changed fill
  write-read h fits =
      let (t, written, e) = write-splice host p bytes offset w s h fits in
      (
        t,
        written,
        read_loaded host p (after_write host p w t) t (length bytes) offset (rw ==_self)
            (read_slice-splice bytes offset s t fits e),
        record { content = rw ==_self; size = rw ==_self },
        ap (length {0}) e ∙ length-splice bytes offset s.elems fits,
      )

  -- A write to a file in memory that starts beyond the capacity of the contents panics.
  pub write_past_capacity :
      IsLoaded (w.heap p) s → cap s < offset → write host p bytes offset w ≡ panic
  unfolding write
  write_past_capacity h far = simp (h.content, h.size, overwrite-none host bytes offset s far)
