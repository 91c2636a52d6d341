-- ===== src/World/Store.antt =====
-- A write of one inode: what it does to the others, and to what it leaves as it was.
use onedriver.Prelude.{◌≡◌, refl, inl, inr, arith, Bool-cases, ◌==◌, ap, ◌∙◌}
use onedriver.World.{Inode, Ptr, store}

-- A part of the inode that the write leaves is the same in every inode.
pub part-store :
    {A : Type 0} (part : Inode → A) (heap : Ptr → Inode) (p : Ptr) (i : Inode)
    → part i ≡ part (heap p)
    → (q : Ptr) → part (store heap p i q) ≡ part (heap q)
part-store part heap p i same q = elim (Bool-cases (p == q)) [
  | inl hit ↦ let here : p ≡ q = ground arith in rw hit (same ∙ ap (λ r. part (heap r)) here)
  | inr miss ↦ rw miss refl
]
