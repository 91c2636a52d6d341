-- ===== src/Slices.antt =====
-- Go's byte slices, as graph/inode.go uses them on file contents: `s[:n]` reaches into the
-- capacity, and `append` writes there before it moves to a new array.
pub mod Overwrite
pub mod Truncate
use onedriver.Prelude.{
  ℕ, ltb, min, ◌+◌, ◌-◌, Option, none, some, [], ◌++◌, if◌then◌else◌, leb, length, take, drop,
  replicate,
}
use onedriver.Item.{Bytes}
use onedriver.Host.{Host}
use onedriver.World.{Slice}

-- len and cap
abbrev pub len : Slice → ℕ
len s = length s.elems

abbrev pub cap : Slice → ℕ
cap s = length s.elems + length s.spare

-- `s[:n]`; beyond the capacity it panics.
pub slice_to : ℕ → Slice → Option Slice
slice_to n s =
    if leb n (cap s)
    then some (record { elems = take n (s.elems ++ s.spare); spare = drop n (s.elems ++ s.spare) })
    else none

-- `append(s, bytes...)`
pub append : Host → Slice → Bytes → Slice
append host s bytes =
    if leb (length bytes) (length s.spare)
    then record { elems = s.elems ++ bytes; spare = drop (length bytes) s.spare }
    else record {
      elems = s.elems ++ bytes;
      spare = replicate (host.append_room (cap s) (len s + length bytes)) 0;
    }

-- `copy(s[offset:], bytes)`, which stops at the end of either; `s[offset:]` panics beyond the end.
unfoldable pub copy_at : ℕ → Slice → Bytes → Option Slice
copy_at offset s bytes =
    if leb offset (len s)
    then some (record s {
      elems =
          take offset s.elems
          ++ (take (len s - offset) bytes ++ drop (offset + length bytes) s.elems);
    })
    else none

-- A new array that holds some bytes and nothing behind them.
abbrev pub exactly : Bytes → Slice
exactly bytes = record { elems = bytes; spare = [] }

-- The bytes of Read: from `off`, up to `count` bytes and not beyond the end; `none` is EINVAL.
unfoldable pub read_slice : ℕ → ℕ → Slice → Option Bytes
read_slice count off s =
    if ltb (len s) off
    then none
    else some (take (min (off + count) (len s) - off) (drop off s.elems))

module _ (host : Host) where
  -- The contents after Write, by the two ways to write; `none` is a panic.
  unfoldable pub overwrite : Bytes → ℕ → ℕ → Slice → Option Slice
  overwrite bytes offset size s =
      if ltb size (offset + length bytes + 1)
      then elim (slice_to offset s) [ none ↦ none | some front ↦ some (append host front bytes) ]
      else copy_at offset s bytes

  -- The contents after the truncation in Setattr.
  pub resize : ℕ → ℕ → Slice → Option Slice
  resize new size s =
      if ltb size new then some (append host s (replicate (new - size) 0)) else slice_to new s
