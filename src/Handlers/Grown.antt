-- ===== src/Handlers/Grown.antt =====
-- Create: what the new file changes, in the cache and in its directory, and what it leaves.
use onedriver.Prelude.{
  ℕ, ◌<◌, String, true, false, Option, none, some, [], ◌∷◌, ◌++◌, ◌≡◌, refl, sym, ap, subst, ◌∙◌,
  arith, lookup, insert, ==_self, ==_ne, if◌then◌else◌,
}
use onedriver.Item.{DriveItemParent, DriveItem}
use onedriver.Host.{Host}
use onedriver.World.{Ptr, World, Inode, done}
use onedriver.World.Store.{part-store}
use onedriver.Fields.{is_local_id, parent_id, is_dir}
use onedriver.Fields.Local.{IsEmptyNew, with_new, new_inode_runs}
use onedriver.Cache.{holds, ids_of}
use onedriver.Cache.Insert.{after_insert, children_after, parent_found}
use onedriver.Cache.Members.{Distinct}
use onedriver.Cache.Insert.Kept.{metadata_after, traffic_after, item_kept, kind_kept, parent_after}
use onedriver.Open.{success}
use onedriver.Handlers.{create}
use onedriver.Handlers.Created.{create_runs, insert_child_ends, placed, id_at, at_new, new_place}

module _ {host : Host} where
  -- A world that grew out of `w` by a new local item at `n`, below the directory at `p`.
  pub record Grown (name : String) (n p : Ptr) (w v : World host) : Type 0 where
    pub id : String
    pub here : (v.heap n).id ≡ id
    pub local : is_local_id id ≡ true
    pub named : (v.heap n).name ≡ name
    pub timed : (t : ℕ) × ((v.heap n).mod_time ≡ some t)
    pub below : parent_id (v.heap n) ≡ (w.heap p).id
    pub metadata : v.metadata ≡ insert id n w.metadata
    pub same : (r : Ptr) → r < w.next → (v.heap r).item ≡ (w.heap r).item
    pub found_parent : lookup (w.heap p).id v.metadata ≡ some p
    pub directory : is_dir (v.heap p) ≡ is_dir (w.heap p)
    pub cached : (v.heap p).has_cache ≡ (w.heap p).has_cache
    pub listing : (v.heap p).children ≡ some (ids_of (v.heap p).children)
    pub ids : ids_of (v.heap p).children ≡ (
        if holds id (ids_of (w.heap p).children)
        then ids_of (w.heap p).children
        else ids_of (w.heap p).children ++ id ∷ [])
    pub online : v.offline ≡ w.offline
    pub quiet : v.sent ≡ w.sent

module _ (host : Host) (p : Ptr) (w : World host) (known : is_local_id (w.heap p).id ≡ false)
    (found : lookup (w.heap p).id w.metadata ≡ some p) (old : p < w.next)
    (distinct : Distinct (ids_of (w.heap p).children)) where
  module _ (name : String) (mode : ℕ) (i : Inode) (k : ℕ)
      (new : IsEmptyNew name mode (w.heap p).id i) where
    abbrev u : World host
    u = placed host w.next new.below.0 (w.heap p).id (with_new host i k w)

    abbrev new_id : String
    new_id = id_at host w.next (with_new host i k w)

    abbrev v : World host
    v = after_insert host new_id w.next p u

    -- The other inodes are those of `w`, and the new one is `i` but for its parent.
    same_in : (r : Ptr) → r < w.next → u.heap r ≡ w.heap r
    same_in r older = rw (==_ne w.next r (λ e. omega arith))

    part_new :
        {A : Type 0} (part : DriveItem → A)
        → ((d : DriveItem) (r : Option DriveItemParent) → part (record d { parent = r }) ≡ part d)
        → part (v.heap w.next).item ≡ part i.item
    part_new part apart =
        ap part (item_kept host new_id w.next p u w.next)
        ∙ part-store (λ j. part j.item) (with_new host i k w).heap w.next _ (apart _ _) w.next
        ∙ ap (λ (j : Inode). part j.item) (at_new host i k w)

    grows : Grown name w.next p w v
    grows =
        let (named, own, there, ne, same) =
          new_place host p w known found old distinct name mode i k new in
        let (kept, listing) = parent_after host new_id w.next p u ne in
        let pid : parent_id (u.heap w.next) ≡ (w.heap p).id = rw ==_self in
        let id_same : i.id ≡ new_id = sym (ap (λ (j : Inode). j.id) (at_new host i k w)) in
        let (online, quiet) = traffic_after host new_id w.next p u in
        record {
          id = new_id;
          here = part_new (λ d. d.id) (λ d r. refl) ∙ id_same;
          local = rw (sym id_same) new.local;
          named = part_new (λ d. d.name) (λ d r. refl) ∙ new.name_same;
          timed = (new.timed.0, part_new (λ d. d.mod_time) (λ d r. refl) ∙ new.timed.1);
          below =
              (let at_item : parent_id (v.heap w.next) ≡ parent_id (u.heap w.next) =
                  ap (λ (d : DriveItem). elim d.parent [ none ↦ "" | some r ↦ r.id ])
                    (item_kept host new_id w.next p u w.next) in
                at_item ∙ pid);
          metadata = metadata_after host new_id w.next p u;
          same = λ r older.
              item_kept host new_id w.next p u r ∙ ap (λ (j : Inode). j.item) (same_in r older);
          found_parent = rw metadata_after (
              subst (λ x. lookup x (insert new_id w.next u.metadata) ≡ some p) pid
                (parent_found host new_id w.next p u named own there ne));
          directory = kind_kept host new_id w.next p u p ∙ ap is_dir (same_in p old);
          cached = kept ∙ ap (λ (j : Inode). j.has_cache) (same_in p old);
          listing = listing;
          ids =
              children_after host new_id w.next p u named own there ne same
              ∙ ap
                  (λ (j : Inode).
                    (if holds new_id (ids_of j.children)
                      then ids_of j.children
                      else ids_of j.children ++ new_id ∷ []))
                  (same_in p old);
          online = online;
          quiet = quiet;
        }

  -- Create, online, grows the world by the new file.
  pub create_grows :
      (name : String) (mode : ℕ)
      → (w.heap p).has_cache ≡ true
      → w.offline ≡ false
      → (v : World host) × (create host p name mode w ≡ done (some w.next, success) v)
        × Grown name w.next p w v
  create_grows name mode cached online =
      let (i, k, made, new) = new_inode_runs host name mode p w in
      let ends = insert_child_ends host p w known found old distinct name mode i k new in
      (
        v name mode i k new,
        create_runs host p name mode w (with_new host i k w) cached online made ∙ rw ends refl,
        grows name mode i k new,
      )
