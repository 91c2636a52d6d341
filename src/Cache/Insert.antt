-- ===== src/Cache/Insert.antt =====
-- InsertID: the item is found under its id and stands among the children of its parent once.
pub mod Kept
use onedriver.Prelude.{
  String, Bool, true, false, some, [], ◌∷◌, ◌++◌, ◌≡◌, ◌≢◌, refl, sym, ◌∙◌, inl, inr, arith,
  if◌then◌else◌, str_eq, eq_refl, eq_iff, lookup, insert, lookup-insert, ◌==◌, ==_self, ==_ne,
  Bool-cases,
}
use onedriver.Host.{Host}
use onedriver.World.{Inode, Ptr, World, done}
use onedriver.Fields.{parent_id, is_dir}
use onedriver.Cache.{get_id, holds, ids_of, add_child, join_parent, insert_id}
use onedriver.Cache.Lookup.{get_id_hit}
use onedriver.Cache.Members.{Distinct, holds-append, append-Distinct}

module _ (host : Host) where
  -- The world once the item itself was stored.
  abbrev pub stored : String → Ptr → World host → World host
  stored id p w = record w {
    heap = λ q. if p == q then record (w.heap p) { has_cache = true } else w.heap q;
    metadata = insert id p w.metadata;
  }

  -- The world once the item has joined the children of `q`.
  abbrev pub joined : Ptr → Ptr → World host → World host
  joined p q w = record w {
    heap = λ r. if q == r then add_child (w.heap p).id (is_dir (w.heap p)) (w.heap q) else w.heap r;
  }

  join_parent_known :
      (id : String) (p q : Ptr) (w : World host)
      → holds id (ids_of (w.heap q).children) ≡ true
      → join_parent host id p (some q) w ≡ done tt w
  unfolding join_parent
  join_parent_known id p q w h = simp h

  join_parent_new :
      (id : String) (p q : Ptr) (w : World host)
      → holds id (ids_of (w.heap q).children) ≡ false
      → join_parent host id p (some q) w ≡ done tt (joined p q w)
  unfolding join_parent
  join_parent_new id p q w h = simp h

  insert_id_joins :
      (id : String) (p q : Ptr) (w : World host)
      → str_eq (parent_id (w.heap p)) "" ≡ false
      → lookup (parent_id (w.heap p)) (insert id p w.metadata) ≡ some q
      → insert_id host id p w ≡ join_parent host id p (some q) (stored id p w)
  unfolding insert_id
  insert_id_joins id p q w named found =
      simp (==_self, named, get_id_hit host (parent_id (w.heap p)) (stored id p w) found)

  pub children-add_child :
      (id : String) (directory : Bool) (i : Inode)
      → (add_child id directory i).children ≡ some (ids_of i.children ++ id ∷ [])
  unfolding add_child
  children-add_child id directory i = refl

  ids_of-add_child :
      (id : String) (directory : Bool) (i : Inode)
      → ids_of (add_child id directory i).children ≡ ids_of i.children ++ id ∷ []
  unfolding add_child
  ids_of-add_child id directory i = refl

  -- The world after InsertID below a parent that is in the cache.
  unfoldable pub after_insert : String → Ptr → Ptr → World host → World host
  after_insert id p q w =
      if holds id (ids_of (w.heap q).children) then stored id p w else joined p q (stored id p w)

  module _ (id : String) (p q : Ptr) (w : World host)
      (named : str_eq (parent_id (w.heap p)) "" ≡ false) (own : parent_id (w.heap p) ≢ id)
      (found : lookup (parent_id (w.heap p)) w.metadata ≡ some q) (apart : p ≢ q) where
    pub parent_found : lookup (parent_id (w.heap p)) (insert id p w.metadata) ≡ some q
    parent_found = rw lookup-insert (ground (arith, eq_iff id (parent_id (w.heap p))))

    pub insert_id_runs : insert_id host id p w ≡ done tt (after_insert id p q w)
    unfolding after_insert
    insert_id_runs = elim (Bool-cases (holds id (ids_of (w.heap q).children))) [
      | inl old ↦ rw old (
          insert_id_joins id p q w named parent_found
          ∙ join_parent_known id p q (stored id p w) (rw (==_ne p q apart) old))
      | inr new ↦ rw new (
          insert_id_joins id p q w named parent_found
          ∙ join_parent_new id p q (stored id p w) (rw (==_ne p q apart) new))
    ]

    pub children_after :
        (w.heap p).id ≡ id
        → ids_of ((after_insert id p q w).heap q).children ≡ (
            if holds id (ids_of (w.heap q).children)
            then ids_of (w.heap q).children
            else ids_of (w.heap q).children ++ id ∷ [])
    unfolding after_insert
    children_after same = elim (Bool-cases (holds id (ids_of (w.heap q).children))) [
      | inl old ↦ rw (old, ==_ne p q apart)
      | inr new ↦ simp (new, ==_self, ==_ne p q apart, ids_of-add_child, same)
    ]

    pub found_after : lookup id (after_insert id p q w).metadata ≡ some p
    unfolding after_insert
    found_after = elim (Bool-cases (holds id (ids_of (w.heap q).children))) [
      | inl old ↦ rw (old, lookup-insert) (rw eq_refl)
      | inr new ↦ rw (new, lookup-insert) (rw eq_refl)
    ]

    pub item_after : (after_insert id p q w).heap p ≡ record (w.heap p) { has_cache = true }
    unfolding after_insert
    item_after =
        let other = ==_ne q p (λ e. apart (sym e)) in
        elim (Bool-cases (holds id (ids_of (w.heap q).children))) [
          | inl old ↦ rw (old, ==_self)
          | inr new ↦ rw new (simp (other, ==_self))
        ]

    -- Inserting an item under its own id below another inode that is in memory and whose children
    -- have no repetitions: the item is found under its id, it is a child of its parent, and the
    -- children stay without repetitions.
    pub insert_id-get_id :
        (w.heap p).id ≡ id
        → Distinct (ids_of (w.heap q).children)
        → (w' : World host) × (insert_id host id p w ≡ done tt w')
          × (get_id host id w' ≡ done (some p) w')
          × (holds id (ids_of (w'.heap q).children) ≡ true)
          × Distinct (ids_of (w'.heap q).children)
    insert_id-get_id same distinct =
        let w' = after_insert id p q w in
        let ids = ids_of (w.heap q).children in
        let after = children_after same in
        (
          w',
          insert_id_runs,
          get_id_hit host id w' found_after,
          rw after (elim (Bool-cases (holds id ids)) [
            | inl old ↦ rw old old
            | inr new ↦ rw new (rw holds-append (rw eq_refl))
          ]),
          rw after (elim (Bool-cases (holds id ids)) [
            | inl old ↦ rw old distinct
            | inr new ↦ rw new (append-Distinct id ids new distinct)
          ]),
        )
