-- ===== src/Slices/Overwrite.antt =====
-- The contents of a file after a write, against one reference for both ways in which Write works.
use onedriver.Prelude.{
  ℕ, zero, suc, ◌+◌, ◌-◌, ◌≤◌, ◌<◌, none, some, List, [], ◌∷◌, ◌++◌, ◌≡◌, refl, sym, ◌∙◌, ap, arith,
  ltb, length, take, drop, take_all, drop_all, length-take, length-append, drop-append_self,
  length-drop, max, inl, inr, Bool-cases,
}
use mathlib.Core.List.{append-nil}
use onedriver.Item.{Bytes}
use onedriver.Host.{Host}
use onedriver.World.{Slice}
use onedriver.Slices.{len, cap, slice_to, append, copy_at, overwrite}

-- The reference: the bytes replace what lies at the offset, and may reach beyond the end.
pub splice : Bytes → ℕ → Bytes → Bytes
splice bytes offset content = take offset content ++ (bytes ++ drop (offset + length bytes) content)

pub elems-append :
    (host : Host) (s : Slice) (bytes : Bytes) → (append host s bytes).elems ≡ s.elems ++ bytes
unfolding append
elems-append host s bytes = ground arith

pub take-append_le {ℓ} :
    {A : Type ℓ} (n : ℕ) (xs ys : List A) → n ≤ length xs → take n (xs ++ ys) ≡ take n xs
take-append_le zero xs ys h = refl
take-append_le (suc n) [] ys h = absurd (omega arith)
take-append_le (suc n) (x ∷ xs) ys h = ap (◌∷◌ x) (take-append_le n xs ys (omega arith))

pub slice_to_lem :
    (n : ℕ) (s : Slice)
    → n ≤ cap s
    → slice_to n s
      ≡ some (record { elems = take n (s.elems ++ s.spare); spare = drop n (s.elems ++ s.spare) })
unfolding slice_to
slice_to_lem n s h = ground arith

copy_at_lem :
    (n : ℕ) (s : Slice) (bytes : Bytes)
    → n + length bytes ≤ len s
    → copy_at n s bytes ≡ some (record s { elems = splice bytes n s.elems })
unfolding copy_at splice
copy_at_lem n s bytes h = ground (arith, take_all (len s - n) bytes (omega arith))

module _ (host : Host) (bytes : Bytes) (offset : ℕ) (s : Slice) where
  elems-append-front :
      offset ≤ len s
      → len s ≤ offset + length bytes
      → take offset (s.elems ++ s.spare) ++ bytes ≡ splice bytes offset s.elems
  unfolding splice
  elems-append-front h past =
      rw (take-append_le offset s.elems s.spare h, drop_all (offset + length bytes) s.elems past)
        (ap (λ (x : Bytes). take offset s.elems ++ x) (sym (append-nil bytes)))

  -- A write that starts inside the contents or at their end leaves the reference.
  pub overwrite-splice :
      offset ≤ len s
      → (t : Slice) × (overwrite host bytes offset (len s) s ≡ some t)
        × (t.elems ≡ splice bytes offset s.elems)
  unfolding overwrite
  overwrite-splice h = elim (Bool-cases (ltb (len s) (offset + length bytes + 1))) [
    | inl past ↦
        let front : Slice = record {
          elems = take offset (s.elems ++ s.spare);
          spare = drop offset (s.elems ++ s.spare);
        } in
        (
          append host front bytes,
          rw (past, slice_to_lem offset s (omega arith)),
          elems-append host front bytes ∙ elems-append-front h (ground arith),
        )
    | inr inside ↦ (
      record s { elems = splice bytes offset s.elems },
      rw (inside, copy_at_lem offset s bytes (ground arith)),
      refl,
    )
  ]

  -- Beyond the capacity of the slice a write panics.
  pub overwrite-none : cap s < offset → overwrite host bytes offset (len s) s ≡ none
  unfolding overwrite slice_to
  overwrite-none h = ground arith

-- What the reference holds, and where.
pub length-splice :
    (bytes : Bytes) (offset : ℕ) (content : Bytes)
    → offset ≤ length content
    → length (splice bytes offset content) ≡ max (length content) (offset + length bytes)
unfolding splice
length-splice bytes offset content h = omega (
  arith,
  length-append (take offset content) (bytes ++ drop (offset + length bytes) content),
  length-append bytes (drop (offset + length bytes) content),
  length-take offset content,
  length-drop (offset + length bytes) content,
)

pub drop-splice :
    (bytes : Bytes) (offset : ℕ) (content : Bytes)
    → offset ≤ length content
    → drop offset (splice bytes offset content) ≡ bytes ++ drop (offset + length bytes) content
unfolding splice
drop-splice bytes offset content h =
    drop-append_self offset (take offset content) _ (omega (arith, length-take offset content))
