-- ===== src/Slices/Truncate.antt =====
-- The contents of a file after a truncation, and what a later write finds behind them.
use onedriver.Prelude.{
  ℕ, ◌+◌, ◌-◌, ◌≤◌, ◌<◌, some, ◌++◌, ◌≡◌, sym, ◌∙◌, ap, arith, ltb, length, take, drop, replicate,
  take_all, length-take, length-append, take-append_self, take-append-drop, inl, inr, Bool-cases,
  true, false,
}
use mathlib.Core.List.{append-nil}
use onedriver.Item.{Bytes}
use onedriver.Host.{Host}
use onedriver.World.{Slice}
use onedriver.Slices.{len, cap, append, overwrite, resize}
use onedriver.Slices.Overwrite.{slice_to_lem, take-append_le, elems-append}

-- The reference: the contents cut to a length, or filled up to it with zeros.
pub truncated : ℕ → Bytes → Bytes
truncated n content = take n content ++ replicate (n - length content) 0

module _ (host : Host) (s : Slice) where
  -- A truncation leaves the reference, whether it shrinks the file or lets it grow.
  pub resize-truncated :
      (n : ℕ) → (t : Slice) × (resize host n (len s) s ≡ some t) × (t.elems ≡ truncated n s.elems)
  unfolding resize truncated
  resize-truncated n = elim (Bool-cases (ltb (len s) n)) [
    | inl grows ↦
        let zeros = replicate (n - len s) 0 in
        (
          append host s zeros,
          rw grows,
          elems-append host s zeros ∙ rw (take_all n s.elems (ground arith)),
        )
    | inr shrinks ↦
        let fits : n ≤ len s = ground arith in
        let none_left : n - len s ≡ 0 = omega arith in
        (
          record { elems = take n (s.elems ++ s.spare); spare = drop n (s.elems ++ s.spare) },
          rw shrinks (slice_to_lem n s (omega arith)),
          rw (none_left, take-append_le n s.elems s.spare fits) (sym (append-nil (take n s.elems))),
        )
  ]

  -- What a shrinking truncation cuts off stays in the array: a write behind the new end brings the
  -- old bytes up to its offset back, where a file should read zeros.
  pub overwrite-resize_stale :
      (n offset : ℕ) (bytes : Bytes)
      → n < offset
      → offset ≤ len s
      → (t u : Slice) × (resize host n (len s) s ≡ some t)
        × (overwrite host bytes offset n t ≡ some u)
        × (take offset u.elems ≡ take offset s.elems)
  unfolding resize overwrite
  overwrite-resize_stale n offset bytes h k =
      let all = s.elems ++ s.spare in
      let t : Slice = record { elems = take n all; spare = drop n all } in
      let whole : t.elems ++ t.spare ≡ all = take-append-drop n all in
      let front : Slice = record { elems = take offset all; spare = drop offset all } in
      let shrinks : ltb (len s) n ≡ false = ground arith in
      let past : ltb n (offset + length bytes + 1) ≡ true = ground arith in
      let room : offset ≤ cap t = omega (
        arith,
        ap (length {0}) whole,
        length-append t.elems t.spare,
        length-append s.elems s.spare,
      ) in
      let size : length (take offset all) ≡ offset =
        omega (arith, length-take offset all, length-append s.elems s.spare) in
      (
        t,
        append host front bytes,
        rw shrinks (slice_to_lem n s (omega arith)),
        rw (past, slice_to_lem offset t room) (rw whole),
        rw (elems-append host front bytes) (
            take-append_self offset (take offset all) bytes size
            ∙ take-append_le offset s.elems s.spare k),
      )
