-- ===== src/Delta/Entered.antt =====
-- A delta of a new item below a directory in memory, that the directory lists or not: what it adds.
use onedriver.Prelude.{
  String, true, false, Option, none, some, [], ◌∷◌, ◌≡◌, ◌≢◌, refl, sym, ap, subst, ◌∙◌, inl, inr,
  arith, str_eq, eq_refl, lookup, insert, ◌==◌, ==_self, ==_ne, Bool-cases, if◌then◌else◌, ◌++◌,
}
use onedriver.Host.{Host}
use onedriver.World.{Inode, Ptr, World, done}
use onedriver.World.Store.{part-store}
use onedriver.Item.{DriveItemParent, DriveItem}
use onedriver.Fields.{parent_id, is_dir, get_mode}
use onedriver.Cache.{holds, ids_of, insert_id}
use onedriver.Cache.Members.{holds-append}
use onedriver.Cache.Insert.{after_insert, insert_id_runs, children_after}
use onedriver.Cache.Insert.Kept.{
  metadata_after, bucket_after, elsewhere_after, children_kept, item_kept, kind_kept, parent_after,
}
use onedriver.Delta.{apply_delta}
use onedriver.Delta.Entries.{with_parent, creates_runs}

module _ {host : Host} where
  -- A delta that tells of an item that is new below the item `parent`.
  pub record IsNew (delta : Ptr) (parent : String) (w : World host) : Type 0 where
    pub reference : DriveItemParent
    pub referenced : (w.heap delta).parent ≡ some reference
    pub place : parent_id (w.heap delta) ≡ parent
    pub alive : (w.heap delta).deleted ≡ none
    pub unknown : lookup (w.heap delta).id w.metadata ≡ none
    pub unstored : host.bucket_get w.metadata_bucket (w.heap delta).id ≡ none

  -- What a world has that a new item entered below the directory at `q`.
  pub record Entered (delta q : Ptr) (w w' : World host) : Type 0 where
    pub metadata : w'.metadata ≡ insert (w.heap delta).id delta w.metadata
    pub bucket : w'.metadata_bucket ≡ w.metadata_bucket
    pub elsewhere : (p : Ptr) → p ≢ delta → p ≢ q → w'.heap p ≡ w.heap p
    pub kept : (w'.heap delta).children ≡ (w.heap delta).children
    pub same_name : (r : Ptr) → (w'.heap r).name ≡ (w.heap r).name
    pub same_kind : (r : Ptr) → is_dir (w'.heap r) ≡ is_dir (w.heap r)
    pub listing :
        holds (w.heap delta).id (ids_of (w.heap q).children) ≡ false
        → (w'.heap q).children ≡ some (ids_of (w.heap q).children ++ (w.heap delta).id ∷ [])
    pub in_parent : holds (w.heap delta).id (ids_of (w'.heap q).children) ≡ true
    pub grows :
        (r : Ptr) (j : String)
        → holds j (ids_of (w.heap r).children) ≡ true
        → holds j (ids_of (w'.heap r).children) ≡ true

is_dir-parent :
    (i : Inode) (reference : Option DriveItemParent)
    → is_dir (record i { item = record i.item { parent = reference } }) ≡ is_dir i
unfolding is_dir get_mode
is_dir-parent i reference = refl

module _ (host : Host) where
  module _ (delta q : Ptr) (parent : String) (w : World host) (item : IsNew delta parent w)
      (above : lookup parent w.metadata ≡ some q) (named : str_eq parent "" ≡ false)
      (apart : delta ≢ q) where
    found : lookup (parent_id (w.heap delta)) w.metadata ≡ some q
    found = rw item.place above

    abbrev placed : World host
    placed = with_parent host delta q w found item.reference

    abbrev entered : World host
    entered = after_insert host (w.heap delta).id delta q placed

    place : parent_id (placed.heap delta) ≡ parent
    place = rw ==_self item.place

    own : parent_id (placed.heap delta) ≢ (w.heap delta).id
    own e =
        let at_id : parent ≡ (w.heap delta).id = sym place ∙ e in
        let no = subst (λ i. lookup i w.metadata ≡ some q) at_id above in
        let unknown = item.unknown in cc

    inserts : insert_id host (w.heap delta).id delta placed ≡ done tt entered
    inserts =
        insert_id_runs host (w.heap delta).id delta q placed (rw place named) own (rw place above)
          apart

    children_entered : ids_of (entered.heap q).children ≡ (
        if holds (w.heap delta).id (ids_of (w.heap q).children)
        then ids_of (w.heap q).children
        else ids_of (w.heap q).children ++ (w.heap delta).id ∷ [])
    children_entered =
        let same : placed.heap q ≡ w.heap q = rw (==_ne delta q apart) in
        children_after host (w.heap delta).id delta q placed (rw place named) own (rw place above)
          apart (part-store (λ i. i.id) w.heap delta _ refl delta)
        ∙ ap
            (λ (i : Inode).
              (if holds (w.heap delta).id (ids_of i.children)
                then ids_of i.children
                else ids_of i.children ++ (w.heap delta).id ∷ []))
            same

    grows_here :
        (j : String)
        → holds j (ids_of (w.heap q).children) ≡ true
        → holds j (ids_of (entered.heap q).children) ≡ true
    grows_here j h =
        rw children_entered
          (elim (Bool-cases (holds (w.heap delta).id (ids_of (w.heap q).children))) [
            | inl old ↦ rw old h
            | inr new ↦ rw new (rw holds-append (ground (arith, h)))
          ])

    lists_new : holds (w.heap delta).id (ids_of (entered.heap q).children) ≡ true
    lists_new =
        rw children_entered
          (elim (Bool-cases (holds (w.heap delta).id (ids_of (w.heap q).children))) [
            | inl old ↦ rw old old
            | inr new ↦ rw new (rw holds-append (rw eq_refl refl))
          ])

    grows_all :
        (r : Ptr) (j : String)
        → holds j (ids_of (w.heap r).children) ≡ true
        → holds j (ids_of (entered.heap r).children) ≡ true
    grows_all r j h = elim (Bool-cases (q == r)) [
      | inl hit ↦
          let same : q ≡ r = ground arith in
          subst
            (λ t.
              holds j (ids_of (w.heap t).children) ≡ true
              → holds j (ids_of (entered.heap t).children) ≡ true)
            same (grows_here j) h
      | inr miss ↦
          let apart : q ≢ r = λ e. (let no = rw e at miss in ground (arith, ==_self r)) in
          let kept =
            children_kept host (w.heap delta).id delta q placed r apart
            ∙ part-store (λ i. i.children) w.heap delta _ refl r in
          rw kept h
    ]

    away : (p : Ptr) → p ≢ delta → p ≢ q → entered.heap p ≡ w.heap p
    away p d e =
        let other : delta ≢ p = λ h. d (sym h) in
        elsewhere_after host (w.heap delta).id delta q placed p other (λ h. e (sym h))
        ∙ rw (==_ne delta p other) refl

    -- A new item below a directory in memory enters the cache and the directory.
    pub apply_delta_enters :
        (w' : World host) × (apply_delta host delta w ≡ done none w') × Entered delta q w w'
    apply_delta_enters = (
      entered,
      creates_runs host delta q w found item.reference entered item.referenced item.alive
          item.unknown item.unstored inserts,
      record {
        metadata = metadata_after host (w.heap delta).id delta q placed;
        bucket = bucket_after host (w.heap delta).id delta q placed;
        elsewhere = away;
        kept =
            children_kept host (w.heap delta).id delta q placed delta (λ e. apart (sym e))
            ∙ part-store (λ i. i.children) w.heap delta _ refl delta;
        same_name = λ r.
            ap (λ (d : DriveItem). d.name) (item_kept host (w.heap delta).id delta q placed r)
            ∙ part-store (λ i. i.name) w.heap delta _ refl r;
        same_kind = λ r.
            kind_kept host (w.heap delta).id delta q placed r
            ∙ part-store is_dir w.heap delta _ (is_dir-parent (w.heap delta) _) r;
        listing = λ new.
            (parent_after host (w.heap delta).id delta q placed apart).1
            ∙ ap some (children_entered ∙ rw new refl);
        in_parent = lists_new;
        grows = grows_all;
      },
    )
