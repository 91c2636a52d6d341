-- ===== src/Cache/Move/Place.antt =====
-- MoveID: the item keeps its contents and its place below its parent.
use Prim.Native.String.{◌++◌}
use mathlib.Core.Option
use onedriver.Prelude.{
  String, Bool, true, false, Option, none, some, List, [], ◌∷◌, ◌≡◌, ◌≢◌, refl, sym, ap, ◌∙◌, arith,
  inl, inr, str_eq, eq_iff, eq_refl, lookup, lookup-insert, lookup-delete, ==_self, ==_ne,
  Option-cases,
}
use onedriver.Host.{Host, BucketLaws}
use onedriver.World.{Inode, Ptr, World, done, store}
use onedriver.Fields.{parent_id}
use onedriver.Cache.{holds, ids_of, drop_child, delete_id, insert_id}
use onedriver.Cache.Content.{put_or_keep, move_content}
use onedriver.Cache.Lookup.{get_id_hit}
use onedriver.Cache.Members.{Distinct}
use onedriver.Cache.Stored.{HasRoom, get-put_or_keep_self}
use onedriver.Cache.Insert.{after_insert, stored, insert_id_runs}
use onedriver.Cache.Delete.{after_delete, delete_id_runs}
use onedriver.Cache.Move.{
  replace_first, replace_in, rename_child, set_id, move_inode, move_found, move_id,
}

ids_of-replace_in :
    (old new : String) (ids : Option (List String))
    → ids_of (replace_in old new ids) ≡ replace_first old new (ids_of ids)
unfolding replace_first
ids_of-replace_in old new none = refl
ids_of-replace_in old new (some ids) = refl

holds-replace_first_old :
    (old new : String) (ids : List String)
    → old ≢ new
    → Distinct ids
    → holds old (replace_first old new ids) ≡ false
unfolding holds replace_first
holds-replace_first_old old new [] apart d = refl
holds-replace_first_old old new (child ∷ ids) apart d =
    ground (arith, holds-replace_first_old old new ids apart d.1, eq_iff child old, eq_iff new old)

holds-replace_first_new :
    (old new : String) (ids : List String)
    → holds old ids ≡ true
    → holds new (replace_first old new ids) ≡ true
unfolding holds replace_first
holds-replace_first_new old new [] h = cc
holds-replace_first_new old new (child ∷ ids) h =
    ground (arith, holds-replace_first_new old new ids, eq_refl new)

-- The inode of the parent once the child was renamed and the old id dropped.
drop_child-rename_child :
    (old new : String) (directory : Bool) (i : Inode)
    → old ≢ new
    → Distinct (ids_of i.children)
    → drop_child old directory (rename_child old new i) ≡ rename_child old new i
unfolding drop_child rename_child
drop_child-rename_child old new directory i apart d =
    rw (ids_of-replace_in, holds-replace_first_old old new (ids_of i.children) apart d)

module _ (host : Host) (laws : BucketLaws host) where
  -- MoveContent changes the stored contents alone, and what is there moves.
  move_content_moves :
      (old new : String) (w : World host)
      → HasRoom host new
      → old ≢ new
      → (err : Option String) × (b : host.Bucket) × (move_content host old new w
          ≡ done err (record w { content_bucket = b }))
        × (host.bucket_get b new
            ≡ Option.or_else
                (host.bucket_get w.content_bucket old)
                (host.bucket_get w.content_bucket new))
        × (host.bucket_get b old ≡ none)
  unfolding move_content Option.or_else
  move_content_moves old new w room apart =
      elim (Option-cases (host.bucket_get w.content_bucket old)) [
        | inl missing ↦ (
          some ("Content not found for ID: " ++ old),
          w.content_bucket,
          rw (missing, move_content) refl,
          rw missing refl,
          missing,
        )
        | inr (content, there) ↦ (
          none,
          host.bucket_delete (put_or_keep host w.content_bucket new content) old,
          rw (there, move_content) refl,
          rw there (
              laws.get-delete_ne (put_or_keep host w.content_bucket new content) new old
                (λ e. apart (sym e))
              ∙ get-put_or_keep_self host laws w.content_bucket new content room),
          laws.get-delete_self (put_or_keep host w.content_bucket new content) old,
        )
      ]

module _ (host : Host) (old new : String) (p q : Ptr) (w : World host) where
  -- The world when MoveID turns to DeleteID.
  abbrev renamed : World host
  renamed =
      let heap = store w.heap q (rename_child old new (w.heap q)) in
      record w { heap = store heap p (set_id new (heap p)) }

  -- The world when only the contents are left to move.
  abbrev replaced : World host
  replaced = after_insert host new p q (after_delete host old p q renamed)

  module _ (apart : p ≢ q) (ids_apart : old ≢ new) (found : lookup old w.metadata ≡ some p)
      (parent : lookup (parent_id (w.heap p)) w.metadata ≡ some q)
      (named : str_eq (parent_id (w.heap p)) "" ≡ false) (not_new : parent_id (w.heap p) ≢ new)
      (distinct : Distinct (ids_of (w.heap q).children))
      (listed : holds old (ids_of (w.heap q).children) ≡ true) where
    not_old : parent_id (w.heap p) ≢ old
    not_old e = apart (cc)

    parent_kept : parent_id (renamed.heap p) ≡ parent_id (w.heap p)
    unfolding set_id
    parent_kept = rw (==_self, ==_ne q p (λ e. apart (sym e)))

    delete_runs : delete_id host old renamed ≡ done tt (after_delete host old p q renamed)
    delete_runs = delete_id_runs host old p q renamed found (rw parent_kept parent)

    -- DeleteID finds the old id among the children no more.
    parent_inode : (after_delete host old p q renamed).heap q ≡ rename_child old new (w.heap q)
    unfolding after_delete
    parent_inode =
        rw (==_self, ==_ne p q apart, ==_self)
          (drop_child-rename_child old new _ (w.heap q) ids_apart distinct)

    child_inode : (after_delete host old p q renamed).heap p ≡ set_id new (w.heap p)
    unfolding after_delete
    child_inode = rw (==_ne q p (λ e. apart (sym e)), ==_self)

    child_parent : parent_id ((after_delete host old p q renamed).heap p) ≡ parent_id (w.heap p)
    unfolding set_id
    child_parent = ap parent_id child_inode

    parent_there :
        lookup (parent_id (w.heap p)) (after_delete host old p q renamed).metadata ≡ some q
    unfolding after_delete
    parent_there = rw lookup-delete (ground (arith, eq_iff old (parent_id (w.heap p)), not_old))

    insert_runs : insert_id host new p (after_delete host old p q renamed) ≡ done tt replaced
    insert_runs =
        insert_id_runs host new p q (after_delete host old p q renamed) (rw child_parent named)
          (rw child_parent not_new) (rw child_parent parent_there) apart

    new_listed : holds new (ids_of ((after_delete host old p q renamed).heap q).children) ≡ true
    unfolding rename_child
    new_listed =
        rw parent_inode (
          rw ids_of-replace_in
            (holds-replace_first_new old new (ids_of (w.heap q).children) listed))

    replaced_lem : replaced ≡ stored host new p (after_delete host old p q renamed)
    unfolding after_insert
    replaced_lem = rw new_listed refl

    old_gone : lookup old (stored host new p (after_delete host old p q renamed)).metadata ≡ none
    unfolding after_delete
    old_gone = rw lookup-insert (rw lookup-delete (ground (arith, eq_iff new old, eq_refl old)))

    -- MoveID from one id to another, of an item that is in memory, as is its parent, which is
    -- another inode, has an id that is not empty and not the new one, and has the old id once among
    -- its children, which have no repetitions, in a database that takes every value under the new
    -- id: the item has the new id and is found under it, not under the old one; it keeps its place
    -- among the children; contents that are stored under the old id are stored under the new one,
    -- which keeps its own otherwise, and nothing is stored under the old id.
    pub move_id_place :
        BucketLaws host
        → HasRoom host new
        → (w' : World host) × (move_id host old new w ≡ done none w')
          × (lookup new w'.metadata ≡ some p)
          × (lookup old w'.metadata ≡ none)
          × ((w'.heap p).id ≡ new)
          × (ids_of (w'.heap q).children ≡ replace_first old new (ids_of (w.heap q).children))
          × (host.bucket_get w'.content_bucket new
              ≡ Option.or_else
                  (host.bucket_get w.content_bucket old)
                  (host.bucket_get w.content_bucket new))
          × (host.bucket_get w'.content_bucket old ≡ none)
    unfolding move_id move_found move_inode set_id rename_child
    move_id_place laws room =
        let w₃ = after_delete host old p q renamed in
        let (err, b, moved, contents, emptied) =
          move_content_moves host laws old new (stored host new p w₃) room ids_apart in
        (
          record (stored host new p w₃) { content_bucket = b },
          rw (get_id_hit host old w found) (
              rw (get_id_hit host (parent_id (w.heap p)) w parent)
                (rw delete_runs (rw insert_runs (rw replaced_lem (rw moved refl))))),
          rw lookup-insert (rw eq_refl),
          old_gone,
          rw ==_self (ap (λ (i : Inode). i.id) child_inode),
          rw (==_ne p q apart) (rw parent_inode (ids_of-replace_in old new (w.heap q).children)),
          unfold after_delete in contents,
          emptied,
        )
