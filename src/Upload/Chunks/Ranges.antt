-- ===== src/Upload/Chunks/Ranges.antt =====
-- The chunks of an upload cover the file.
use onedriver.Prelude.{
  ℕ, zero, suc, ◌+◌, ◌-◌, ◌*◌, ◌≤◌, ◌<◌, List, [], ◌∷◌, ◌++◌, ◌≡◌, ◌≢◌, ◌^◌, refl, sym, ◌∙◌, ap,
  arith, true, ltb, min, length, take, drop, take_all, drop_all, length-take, length-drop,
  take-append-drop, inl, inr, Bool-cases,
}
use mathlib.Core.Path.{ap₂}
use onedriver.Item.{Bytes}
use onedriver.Upload.Chunks.{chunk_size, chunk_end, chunk_bytes, chunk_count, declared_length}

-- The bytes of `n` chunks from the i-th on.
unfoldable pub join_chunks : ℕ → Bytes → ℕ → ℕ → Bytes
join_chunks size content i zero = []
join_chunks size content i (suc n) =
    chunk_bytes size (i * chunk_size) content ++ join_chunks size content (i + 1) n

pub drop-drop {ℓ} : {A : Type ℓ} (m n : ℕ) (xs : List A) → drop n (drop m xs) ≡ drop (m + n) xs
drop-drop zero n xs = ap (λ k. drop k xs) (omega arith)
drop-drop (suc m) zero [] = rw (add_drop m)
  where
    add_drop : (m : ℕ) → suc m + 0 ≡ suc m
    add_drop m = omega arith
drop-drop (suc m) (suc n) [] = rw (add_drop m n)
  where
    add_drop : (m n : ℕ) → suc m + suc n ≡ suc (m + suc n)
    add_drop m n = omega arith
drop-drop (suc m) n (x ∷ xs) = rw (add_drop m n) (drop-drop m n xs)
  where
    add_drop : (m n : ℕ) → suc m + n ≡ suc (m + n)
    add_drop m n = omega arith

chunk_bytes-take :
    (size offset : ℕ) (content : Bytes)
    → length content ≡ size
    → chunk_bytes size offset content ≡ take chunk_size (drop offset content)
unfolding chunk_bytes chunk_end
chunk_bytes-take size offset content h = elim (Bool-cases (ltb size (offset + chunk_size))) [
  | inl last ↦ rw last (
      take_all (size - offset) rest (omega (arith, length-drop offset content))
      ∙ sym (take_all chunk_size rest (whole last)))
  | inr more ↦ rw more (ap (λ k. take k rest) exact)
]
  where
    rest : Bytes
    rest = drop offset content

    exact : offset + chunk_size - offset ≡ chunk_size
    exact = omega arith

    whole : ltb size (offset + chunk_size) ≡ true → length rest ≤ chunk_size
    whole last = ground (arith, length-drop offset content)

-- Pieces of a fixed size make up what is left of the contents.
take-drop_next :
    (c m : ℕ) (content : Bytes) → take c (drop m content) ++ drop (m + c) content ≡ drop m content
take-drop_next c m content = rw (← drop-drop m c content) (take-append-drop c (drop m content))

-- From any chunk on, enough chunks hold the rest of the file.
pub join_chunks-drop :
    (size i n : ℕ) (content : Bytes)
    → length content ≡ size
    → size ≤ (i + n) * chunk_size
    → join_chunks size content i n ≡ drop (i * chunk_size) content
unfolding join_chunks
join_chunks-drop size i zero content h k = sym (drop_all (i * chunk_size) content (omega arith))
join_chunks-drop size i (suc n) content h k =
    ap₂ (λ (a b : Bytes). a ++ b) (chunk_bytes-take size (i * chunk_size) content h)
      (join_chunks-drop size (i + 1) n content h (omega arith) ∙ ap (λ k. drop k content) next)
    ∙ take-drop_next chunk_size (i * chunk_size) content
  where
    next : (i + 1) * chunk_size ≡ i * chunk_size + chunk_size
    next = omega arith

-- The chunks of an upload, one after the other, are the file.
pub join_chunks_all :
    (size : ℕ) (content : Bytes)
    → length content ≡ size
    → join_chunks size content 0 (chunk_count size) ≡ content
unfolding chunk_count
join_chunks_all size content h = join_chunks-drop size 0 (chunk_count size) content h (omega arith)

-- What the program declares as the length of a chunk is never the number of its bytes: it is 0 for
-- all chunks but the last, and one too many for that.
pub declared_length-ne-length :
    (content : Bytes) (offset : ℕ)
    → offset < length content
    → length content < 2 ^ 63
    → declared_length (length content) offset ≢ length (chunk_bytes (length content) offset content)
unfolding declared_length
declared_length-ne-length content offset h bound e =
    let size = length content in
    let body : length (chunk_bytes size offset content) ≡ min chunk_size (size - offset) =
      ap (length {0}) (chunk_bytes-take size offset content refl)
      ∙ length-take chunk_size (drop offset content)
      ∙ ap (min chunk_size) (length-drop offset content) in
    elim (Bool-cases (ltb size (offset + chunk_size))) [
      | inl last ↦
          let short : size < offset + chunk_size = ground arith in omega (arith, body, rw last at e)
      | inr more ↦
          let long : offset + chunk_size ≤ size = ground arith in omega (arith, body, rw more at e)
    ]
