-- ===== src/Delta/Overwrite.antt =====
-- A change of a file's content on the server, as applyDelta takes it over.
use onedriver.Prelude.{
  ℕ, ◌<◌, true, false, none, some, ◌≡◌, refl, arith, if◌then◌else◌, ltb, eq_refl, lookup, ◌==◌,
  ==_self,
}
use onedriver.Host.{Host}
use onedriver.World.{Inode, Ptr, World, done}
use onedriver.Fields.{parent_id, is_dir, get_mode, get_size}
use onedriver.Cache.Lookup.{get_id_hit}
use onedriver.Delta.{overwrite_inode, apply_content, apply_known, apply_below, apply_delta}

get_size-overwrite_inode : (d i : Inode) → get_size (overwrite_inode d i) ≡ get_size i
unfolding get_size is_dir get_mode overwrite_inode
get_size-overwrite_inode d i = refl

module _ (host : Host) (delta p q : Ptr) (w : World host) where
  -- The world after the local inode was overwritten.
  abbrev pub overwritten : World host
  overwritten = record w {
    heap = λ r. if p == r then overwrite_inode (w.heap delta) (w.heap p) else w.heap r;
  }

  apply_delta_overwrites :
      {theirs ours : ℕ}
      → lookup (parent_id (w.heap delta)) w.metadata ≡ some q
      → lookup (w.heap delta).id w.metadata ≡ some p
      → (w.heap delta).deleted ≡ none
      → parent_id (w.heap p) ≡ parent_id (w.heap delta)
      → (w.heap p).name ≡ (w.heap delta).name
      → (w.heap delta).mod_time ≡ some theirs
      → (w.heap p).mod_time ≡ some ours
      → ours < theirs
      → 0 < get_size (w.heap delta)
      → apply_delta host delta w ≡ done none overwritten
  unfolding apply_delta apply_below apply_known apply_content
  apply_delta_overwrites {theirs} {ours} hq hp alive parent name t o newer full =
      let later : ltb ours theirs ≡ true = ground arith in
      let filled : ltb 0 (get_size (w.heap delta)) ≡ true = ground arith in
      simp (
        get_id_hit host (parent_id (w.heap delta)) w hq,
        alive,
        get_id_hit host (w.heap delta).id w hp,
        parent,
        name,
        eq_refl,
        t,
        o,
        later,
        filled,
      )

  -- A newer version on the server, not empty, of a file that is in memory, as is its parent, and
  -- that is neither deleted nor moved nor renamed takes the contents out of memory, with changes
  -- that were made here and not uploaded, if there are any, and the mark of such changes with them;
  -- it takes the server's time and hashes, and the size that is shown stays the old one.
  pub apply_delta_stale_size :
      {theirs ours : ℕ}
      → lookup (parent_id (w.heap delta)) w.metadata ≡ some q
      → lookup (w.heap delta).id w.metadata ≡ some p
      → (w.heap delta).deleted ≡ none
      → parent_id (w.heap p) ≡ parent_id (w.heap delta)
      → (w.heap p).name ≡ (w.heap delta).name
      → (w.heap delta).mod_time ≡ some theirs
      → (w.heap p).mod_time ≡ some ours
      → ours < theirs
      → 0 < get_size (w.heap delta)
      → (w' : World host) × (apply_delta host delta w ≡ done none w')
        × ((w'.heap p).content ≡ none)
        × ((w'.heap p).has_changes ≡ false)
        × ((w'.heap p).file ≡ (w.heap delta).file)
        × ((w'.heap p).mod_time ≡ some theirs)
        × (get_size (w'.heap p) ≡ get_size (w.heap p))
  unfolding overwrite_inode
  apply_delta_stale_size hq hp alive parent name t o newer full = (
    overwritten,
    apply_delta_overwrites hq hp alive parent name t o newer full,
    rw ==_self,
    rw ==_self,
    rw ==_self,
    rw ==_self t,
    rw ==_self (get_size-overwrite_inode (w.heap delta) (w.heap p)),
  )
