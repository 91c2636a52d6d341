-- ===== src/Handlers/Created.antt =====
-- Create: the new file, its id and its place.
use onedriver.Prelude.{
  ℕ, ◌<◌, String, true, false, some, ◌≡◌, ◌≢◌, refl, sym, ap, subst, ◌∙◌, arith, lookup, str_eq,
  ==_self, ==_ne,
}
use onedriver.Item.{DriveItemParent}
use onedriver.Host.{Host}
use onedriver.World.{Ptr, World, Inode, done, store, pure, and_then}
use onedriver.World.Store.{part-store}
use onedriver.Fields.{new_inode, is_local_id, parent_id}
use onedriver.Fields.Local.{IsEmptyNew, with_new, new_inode_runs}
use onedriver.Cache.{get_id, insert_id, insert_child, set_parent, holds, ids_of}
use onedriver.Cache.Insert.{after_insert, insert_id_runs, insert_id-get_id, item_after}
use onedriver.Cache.Members.{Distinct}
use onedriver.Open.{success}
use onedriver.Handlers.{create}

module _ (host : Host) where
  -- The world in which the inode at `q` has its parent.
  abbrev pub placed : Ptr → DriveItemParent → String → World host → World host
  placed q r id w = record w {
    heap = store w.heap q (record (w.heap q) {
      item = record (w.heap q).item { parent = some (record r { id = id }) };
    });
  }

  -- The id of the inode at `q`.
  abbrev pub id_at : Ptr → World host → String
  id_at q w = (w.heap q).id

  insert_child_runs :
      (id : String) (q : Ptr) (r : DriveItemParent) (w : World host)
      → (w.heap q).parent ≡ some r
      → insert_child host id q w ≡ insert_id host (id_at q w) q (placed q r id w)
  unfolding insert_child set_parent
  insert_child_runs id q r w h = simp (h, ==_self)

  pub create_runs :
      (p : Ptr) (name : String) (mode : ℕ) (w v : World host)
      → (w.heap p).has_cache ≡ true
      → w.offline ≡ false
      → new_inode host name mode (some p) w ≡ done w.next v
      → create host p name mode w
        ≡ and_then (insert_child host (w.heap p).id w.next v) (λ _. pure (some w.next, success))
  unfolding create
  create_runs p name mode w v cached online made = simp (cached, online, made)

  known-ne-new : (id new : String) → is_local_id id ≡ false → is_local_id new ≡ true → id ≢ new
  known-ne-new id new known local e = cc

  known-ne-empty : (id : String) → is_local_id id ≡ false → str_eq id "" ≡ false
  known-ne-empty id known = ground arith

  pub at_new : (i : Inode) (k : ℕ) (w : World host) → (with_new host i k w).heap w.next ≡ i
  at_new i k w = rw ==_self

  -- A file that was just made, at `q`, below the inode at `p` with this id.
  pub record IsMade (name : String) (mode : ℕ) (id : String) (p q : Ptr) (w : World host)
      : Type 0 where
    pub new : IsEmptyNew name mode id (w.heap q)
    pub found : get_id host (w.heap q).id w ≡ done (some q) w
    pub in_parent : holds (w.heap q).id (ids_of (w.heap p).children) ≡ true
    pub distinct : Distinct (ids_of (w.heap p).children)

  -- A new inode that has its parent and is in the cache.
  abbrev settled : DriveItemParent → String → Inode → Inode
  settled r id i = record i {
    item = record i.item { parent = some (record r { id = id }) };
    has_cache = true;
  }

  settled-IsMade :
      (name : String) (mode : ℕ) (id : String) (p q : Ptr) (w : World host) (i : Inode)
      (r : DriveItemParent)
      → IsEmptyNew name mode id i
      → w.heap q ≡ settled r id i
      → get_id host i.id w ≡ done (some q) w
      → holds i.id (ids_of (w.heap p).children) ≡ true
      → Distinct (ids_of (w.heap p).children)
      → IsMade name mode id p q w
  settled-IsMade name mode id p q w i r new at_q found listed distinct = record {
    new = subst (IsEmptyNew name mode id) (sym at_q) (record {
      name_same = new.name_same;
      mode_same = new.mode_same;
      local = new.local;
      below = (_, refl, refl);
      children = new.children;
      content = new.content;
      unchanged = new.unchanged;
      empty = new.empty;
      timed = new.timed;
    });
    found = rw at_q found;
    in_parent = rw at_q listed;
    distinct = distinct;
  }

  module _ (p : Ptr) (w : World host) (known : is_local_id (w.heap p).id ≡ false)
      (found : lookup (w.heap p).id w.metadata ≡ some p) (old : p < w.next)
      (distinct : Distinct (ids_of (w.heap p).children)) where
    -- The place of a new inode below the directory.
    pub new_place :
        (name : String) (mode : ℕ) (i : Inode) (k : ℕ) (new : IsEmptyNew name mode (w.heap p).id i)
        → let q = w.next in
          let v = with_new host i k w in
          let u = placed q new.below.0 (w.heap p).id v in
          (str_eq (parent_id (u.heap q)) "" ≡ false)
          × (parent_id (u.heap q) ≢ id_at q v)
          × (lookup (parent_id (u.heap q)) u.metadata ≡ some p)
          × (q ≢ p)
          × ((u.heap q).id ≡ id_at q v)
    new_place name mode i k new =
        let q = w.next in
        let v = with_new host i k w in
        let u = placed q new.below.0 (w.heap p).id v in
        let at_q : parent_id (u.heap q) ≡ (w.heap p).id = rw ==_self in
        let id_same : id_at q v ≡ i.id = ap (λ (j : Inode). j.id) (at_new i k w) in
        (
          rw at_q (known-ne-empty (w.heap p).id known),
          λ e. known-ne-new (w.heap p).id i.id known new.local (sym at_q ∙ e ∙ id_same),
          rw at_q found,
          λ e. omega arith,
          part-store (λ j. j.id) v.heap q _ refl q,
        )

    -- InsertChild of a new inode ends in the world of the insertion below the directory.
    pub insert_child_ends :
        (name : String) (mode : ℕ) (i : Inode) (k : ℕ) (new : IsEmptyNew name mode (w.heap p).id i)
        → let q = w.next in
          let v = with_new host i k w in
          insert_child host (w.heap p).id q v
          ≡ done tt (after_insert host (id_at q v) q p (placed q new.below.0 (w.heap p).id v))
    insert_child_ends name mode i k new =
        let q = w.next in
        let v = with_new host i k w in
        let r = new.below.0 in
        let (named, own, there, apart, _) = new_place name mode i k new in
        insert_child_runs (w.heap p).id q r v
          (ap (λ (j : Inode). j.parent) (at_new i k w) ∙ new.below.1)
        ∙ insert_id_runs host (id_at q v) q p (placed q r (w.heap p).id v) named own there apart

    insert_child-IsMade :
        (name : String) (mode : ℕ) (i : Inode) (k : ℕ)
        → IsEmptyNew name mode (w.heap p).id i
        → (w' : World host) × (insert_child host (w.heap p).id w.next (with_new host i k w)
            ≡ done tt w')
          × IsMade name mode (w.heap p).id p w.next w'
    insert_child-IsMade name mode i k new =
        let q = w.next in
        let v = with_new host i k w in
        let (r, has, below) = new.below in
        let u = placed q r (w.heap p).id v in
        let (named, own, there, apart, _) = new_place name mode i k new in
        let at_q : u.heap q ≡ record i {
          item = record i.item { parent = some (record r { id = (w.heap p).id }) };
        } =
          simp ==_self in
        let at_p : u.heap p ≡ w.heap p = rw (==_ne q p apart) in
        let id = id_at q v in
        let id_same : id ≡ i.id = ap (λ (j : Inode). j.id) (at_new i k w) in
        let (w', run, gets, listed, still) =
          insert_id-get_id host id q p u named own there apart (rw at_q (sym id_same))
            (rw at_p distinct) in
        let run₂ = insert_id_runs host id q p u named own there apart in
        let ends : after_insert host id q p u ≡ w' = cc in
        let item : w'.heap q ≡ record (u.heap q) { has_cache = true } =
          subst (λ x. x.heap q ≡ record (u.heap q) { has_cache = true }) ends
            (item_after host id q p u named own there apart) in
        let placed_q : w'.heap q ≡ settled r (w.heap p).id i =
          item ∙ ap (λ (j : Inode). record j { has_cache = true }) at_q in
        (
          w',
          insert_child_runs (w.heap p).id q r v (ap (λ (j : Inode). j.parent) (at_new i k w) ∙ has)
              ∙ run,
          settled-IsMade name mode (w.heap p).id p q w' i r new placed_q
              (subst (λ x. get_id host x w' ≡ done (some q) w') id_same gets)
              (subst (λ x. holds x (ids_of (w'.heap p).children) ≡ true) id_same listed) still,
        )

    -- Creating a file, online, below an inode in memory that has an id of the server and whose
    -- children have no repetitions, succeeds: a new inode is an empty file of that name and mode
    -- with a local id and without changes, is found under its id, and is among the children, which
    -- stay without repetitions.
    pub create-IsMade :
        (name : String) (mode : ℕ)
        → (w.heap p).has_cache ≡ true
        → w.offline ≡ false
        → (w' : World host) × (create host p name mode w ≡ done (some w.next, success) w')
          × IsMade name mode (w.heap p).id p w.next w'
    create-IsMade name mode cached online =
        let (i, k, made, new) = new_inode_runs host name mode p w in
        let (w', run, is) = insert_child-IsMade name mode i k new in
        (w', create_runs p name mode w (with_new host i k w) cached online made ∙ rw run, is)
