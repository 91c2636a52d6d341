-- ===== src/Cache/Insert/Kept.antt =====
-- What InsertID leaves of the inodes, and what the parent lists after it.
use onedriver.Prelude.{
  String, Bool, true, Option, none, some, List, ◌≡◌, ◌≢◌, refl, inl, inr, ◌∙◌, ap, insert,
  Bool-cases, ==_self, ==_ne,
}
use onedriver.Host.{Host}
use onedriver.World.{Inode, Ptr, World}
use onedriver.World.Store.{part-store}
use onedriver.Cache.{holds, ids_of, add_child}
use onedriver.Fields.{is_dir, get_mode}
use onedriver.Cache.Unlisted.{is_dir-add_child}
use onedriver.Cache.Insert.{stored, joined, after_insert, children-add_child}

part-add_child :
    (id : String) (directory : Bool) (i : Inode)
    → ((add_child id directory i).item ≡ i.item)
      × ((add_child id directory i).mode ≡ i.mode)
      × ((add_child id directory i).has_cache ≡ i.has_cache)
unfolding add_child
part-add_child id directory i = (refl, refl, refl)

-- A list with an element is no nil slice.
ids_of-holds :
    (id : String) (children : Option (List String))
    → holds id (ids_of children) ≡ true
    → children ≡ some (ids_of children)
unfolding holds
ids_of-holds id none h = cc
ids_of-holds id (some ids) h = refl

ids_of-some :
    (children : Option (List String)) (ids : List String)
    → children ≡ some ids
    → children ≡ some (ids_of children)
ids_of-some none ids h = cc
ids_of-some (some listed) ids h = refl

module _ (host : Host) (id : String) (p q : Ptr) (w : World host) where
  pub metadata_after : (after_insert host id p q w).metadata ≡ insert id p w.metadata
  unfolding after_insert
  metadata_after = elim (Bool-cases (holds id (ids_of (w.heap q).children))) [
    | inl old ↦ rw old
    | inr new ↦ rw new
  ]

  pub traffic_after :
      let v = after_insert host id p q w in (v.offline ≡ w.offline) × (v.sent ≡ w.sent)
  unfolding after_insert
  traffic_after = elim (Bool-cases (holds id (ids_of (w.heap q).children))) [
    | inl old ↦ rw old (refl, refl)
    | inr new ↦ rw new (refl, refl)
  ]

  pub bucket_after : (after_insert host id p q w).metadata_bucket ≡ w.metadata_bucket
  unfolding after_insert
  bucket_after = elim (Bool-cases (holds id (ids_of (w.heap q).children))) [
    | inl old ↦ rw old refl
    | inr new ↦ rw new refl
  ]

  -- Other inodes stay as they are, and other directories keep their children.
  pub elsewhere_after : (r : Ptr) → p ≢ r → q ≢ r → (after_insert host id p q w).heap r ≡ w.heap r
  unfolding after_insert
  elsewhere_after r d e = elim (Bool-cases (holds id (ids_of (w.heap q).children))) [
    | inl old ↦ rw old (rw (==_ne p r d) refl)
    | inr new ↦ rw new (rw (==_ne q r e) (rw (==_ne p r d) refl))
  ]

  pub children_kept :
      (r : Ptr) → q ≢ r → ((after_insert host id p q w).heap r).children ≡ (w.heap r).children
  unfolding after_insert
  children_kept r e =
      let first =
        part-store (λ i. i.children) w.heap p (record (w.heap p) { has_cache = true }) refl r in
      elim (Bool-cases (holds id (ids_of (w.heap q).children))) [
        | inl old ↦ rw old first
        | inr new ↦ rw new (rw (==_ne q r e) first)
      ]

  -- A part of the inodes that neither step changes.
  part_kept :
      {A : Type 0} (part : Inode → A)
      → ((i : Inode) → part (record i { has_cache = true }) ≡ part i)
      → ((j : String) (directory : Bool) (i : Inode) → part (add_child j directory i) ≡ part i)
      → (r : Ptr) → part ((after_insert host id p q w).heap r) ≡ part (w.heap r)
  unfolding after_insert
  part_kept part cached added r =
      let first = part-store part w.heap p (record (w.heap p) { has_cache = true }) (cached _) in
      elim (Bool-cases (holds id (ids_of (w.heap q).children))) [
        | inl old ↦ rw old (first r)
        | inr new ↦
            let v = stored host id p w in
            rw new (
              part-store part v.heap q _ (added (v.heap p).id (is_dir (v.heap p)) (v.heap q)) r
              ∙ first r)
      ]

  pub item_kept : (r : Ptr) → ((after_insert host id p q w).heap r).item ≡ (w.heap r).item
  item_kept = part_kept (λ i. i.item) (λ i. refl) (λ j d i. (part-add_child j d i).0)

  pub kind_kept : (r : Ptr) → is_dir ((after_insert host id p q w).heap r) ≡ is_dir (w.heap r)
  kind_kept = part_kept is_dir (λ i. unfold is_dir in unfold get_mode in refl) is_dir-add_child

  module _ (apart : p ≢ q) where
    -- The parent lists its children and is in the cache as before.
    pub parent_after :
        (let i = (after_insert host id p q w).heap q in
          (i.has_cache ≡ (w.heap q).has_cache) × (i.children ≡ some (ids_of i.children)))
    unfolding after_insert
    parent_after = elim (Bool-cases (holds id (ids_of (w.heap q).children))) [
      | inl old ↦ rw (old, ==_ne p q apart) (refl, ids_of-holds id (w.heap q).children old)
      | inr new ↦
          let v = stored host id p w in
          let child = (v.heap p).id in
          let directory = is_dir (v.heap p) in
          let at_q : (joined host p q v).heap q ≡ add_child child directory (v.heap q) =
            rw ==_self in
          let same : v.heap q ≡ w.heap q = rw (==_ne p q apart) in
          rw new (
            ap (λ (i : Inode). i.has_cache) at_q
                ∙ (part-add_child child directory (v.heap q)).2
                ∙ ap (λ (i : Inode). i.has_cache) same,
            ids_of-some _ _ (
                ap (λ (i : Inode). i.children) at_q
                ∙ children-add_child host child directory (v.heap q)),
          )
    ]
