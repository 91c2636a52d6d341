-- ===== src/Handlers/Undone.antt =====
-- graph/inode.go: Create and then Unlink of the same name, in a directory that was listed before.
use onedriver.Prelude.{
  ℕ, ◌<◌, String, true, false, Option, none, some, List, ◌≡◌, ◌≢◌, refl, sym, ap, subst, ◌∙◌, arith,
  lookup, lookup-insert, lookup-delete, eq_iff, eq_refl, ==_self,
}
use onedriver.Item.{DriveItem, ok, fail}
use onedriver.Host.{Host}
use onedriver.World.{Ptr, World, Inode, done}
use onedriver.World.Store.{part-store}
use onedriver.Fields.{is_local_id, is_dir, get_mode, parent_id}
use onedriver.Graph.{shared_auth, no_auth}
use onedriver.Cache.{holds, ids_of, drop_child, remove_first}
use onedriver.Cache.Content.{delete_content}
use onedriver.Cache.Children.{to_lower, get_child}
use onedriver.Cache.Delete.{after_delete, delete_id_runs}
use onedriver.Cache.Dropped.{part-drop_child, drop_child-children, remaining}
use onedriver.Cache.Missing.{Missing, get_child_misses}
use onedriver.Cache.Members.{Distinct}
use onedriver.Open.{success, enoent}
use onedriver.Handlers.{create, unlink, unlink_child, unlink_local, look_up, found_child, ignore}
use onedriver.Handlers.Grown.{Grown, create_grows}
use onedriver.Handlers.Others.{Others, Others-Missing}
use onedriver.Handlers.Found.{has_new, get_child_new, lists}

module _ (host : Host) where
  look_up_misses :
      (p : Ptr) (spelled : String) (w : World host) {err : String}
      → ignore spelled ≡ false
      → (w.heap p).has_cache ≡ true
      → get_child host (w.heap p).id (to_lower host spelled) shared_auth w ≡ done (fail err) w
      → look_up host p spelled w ≡ done (none, enoent) w
  unfolding look_up found_child
  look_up_misses p spelled w regular cached found = simp (regular, cached, found)

  -- A child that the server does not know goes without a request.
  unlink_child_local :
      (q : Ptr) (v : World host)
      → v.offline ≡ false
      → is_local_id (v.heap q).id ≡ true
      → unlink_child host (ok q) v ≡ unlink_local host (v.heap q).id v
  unfolding unlink_child
  unlink_child_local q v online local = simp (online, local)

  module _ (name : String) (p : Ptr) (w v : World host) (grown : Grown name w.next p w v)
      (others : Others host name (ids_of (w.heap p).children) w)
      (distinct : Distinct (ids_of (w.heap p).children)) (old : p < w.next)
      (directory : is_dir (w.heap p) ≡ true) where
    abbrev n : Ptr
    n = w.next

    -- The world after the file was unlinked.
    abbrev z : World host
    z = record (after_delete host (v.heap n).id n p v) {
      content_bucket = host.bucket_delete v.content_bucket (v.heap n).id;
    }

    removes : unlink_local host (v.heap n).id v ≡ done success z
    unfolding unlink_local delete_content after_delete
    removes =
        let there : lookup (v.heap n).id v.metadata ≡ some n =
          rw grown.here (has_new host name p w v grown others) in
        let above : lookup (parent_id (v.heap n)) v.metadata ≡ some p =
          rw grown.below grown.found_parent in
        rw (delete_id_runs host (v.heap n).id n p v there above) refl

    unlinks :
        (w.heap p).has_cache ≡ true → w.offline ≡ false → unlink host p name v ≡ done success z
    unfolding unlink
    unlinks cached online =
        let child = get_child_new host name p w v grown others name no_auth directory old refl in
        let local : is_local_id (v.heap n).id ≡ true = rw grown.here grown.local in
        rw (grown.cached ∙ cached)
          (rw child (unlink_child_local n v (grown.online ∙ online) local ∙ removes))

    part_z :
        {A : Type 0} (part : Inode → A)
        → ((j : Inode) (c : Option (List String)) (s : ℕ)
            → part (record j { children = c; subdir = s }) ≡ part j)
        → (r : Ptr) → part (z.heap r) ≡ part (v.heap r)
    unfolding after_delete
    part_z part same r =
        part-store part v.heap p _ (part-drop_child part (v.heap n).id _ (v.heap p) same) r

    children_z : (z.heap p).children ≡ some (remove_first grown.id (ids_of (w.heap p).children))
    unfolding after_delete
    children_z =
        let id = (v.heap n).id in
        let there : holds id (ids_of (v.heap p).children) ≡ true =
          rw grown.here (lists host name p w v grown others).1 in
        let at_p : z.heap p ≡ drop_child id (is_dir (v.heap n)) (v.heap p) = rw ==_self in
        ap (λ (i : Inode). i.children) at_p
        ∙ drop_child-children id (is_dir (v.heap n)) (v.heap p) there
        ∙ ap (λ j. some (remove_first j (ids_of (v.heap p).children))) grown.here
        ∙ ap (λ ids. some (remove_first grown.id ids)) grown.ids
        ∙ ap some (remaining grown.id (ids_of (w.heap p).children))

    lookup_z : (j : String) → grown.id ≢ j → lookup j z.metadata ≡ lookup j w.metadata
    unfolding after_delete
    lookup_z j apart =
        rw lookup-delete
          (rw (grown.here, grown.metadata, lookup-insert) (ground (arith, eq_iff grown.id j)))

    none_left :
        Missing host (to_lower host name) (remove_first grown.id (ids_of (w.heap p).children)) z
    none_left =
        Others-Missing host name grown.id w z lookup_z
          (λ r older.
            ap (λ (d : DriveItem). d.name)
              (part_z (λ i. i.item) (λ j c s. refl) r ∙ grown.same r older))
          (ids_of (w.heap p).children) distinct others

    gone : lookup (v.heap n).id z.metadata ≡ none
    unfolding after_delete
    gone = rw lookup-delete (rw eq_refl refl)

    quiet : z.sent ≡ w.sent
    unfolding after_delete
    quiet = grown.quiet

    looks_up_nothing :
        (spelled : String)
        → is_local_id (w.heap p).id ≡ false
        → lookup (w.heap p).id w.metadata ≡ some p
        → (w.heap p).has_cache ≡ true
        → to_lower host (to_lower host spelled) ≡ to_lower host name
        → ignore spelled ≡ false
        → look_up host p spelled z ≡ done (none, enoent) z
    looks_up_nothing spelled known found cached lower regular =
        let pid : (z.heap p).id ≡ (w.heap p).id =
          part_z (λ i. i.id) (λ j c s. refl) p ∙ ap (λ (d : DriveItem). d.id) (grown.same p old) in
        let other : grown.id ≢ (w.heap p).id = λ e. (let local = rw e at grown.local in cc) in
        look_up_misses p spelled z regular
          (part_z (λ i. i.has_cache) (λ j c s. refl) p ∙ grown.cached ∙ cached)
          (get_child_misses host z (to_lower host name) (to_lower host spelled) (z.heap p).id p _
            shared_auth lower (rw pid (lookup_z (w.heap p).id other ∙ found))
            (part_z is_dir (λ j c s. unfold is_dir in unfold get_mode in refl) p
              ∙ grown.directory
              ∙ directory)
            children_z none_left)

  -- Creating a file and unlinking it by the same name, online, in a directory in memory that has an
  -- id of the server and whose children were listed before, have no repetitions, are all in memory
  -- and have other names, up to upper and lower case: both succeed without a request, the new id is
  -- gone from memory, the directory lists what it listed before, less the new id, and a Lookup by
  -- any name with the same letters in lower case that is not ignored finds nothing.
  pub create-unlink :
      (p : Ptr) (w : World host) (name spelled : String) (mode : ℕ) (ids : List String)
      → is_local_id (w.heap p).id ≡ false
      → lookup (w.heap p).id w.metadata ≡ some p
      → p < w.next
      → (w.heap p).children ≡ some ids
      → Distinct ids
      → (w.heap p).has_cache ≡ true
      → is_dir (w.heap p) ≡ true
      → w.offline ≡ false
      → Others host name ids w
      → to_lower host (to_lower host spelled) ≡ to_lower host name
      → ignore spelled ≡ false
      → (v z : World host) × (create host p name mode w ≡ done (some w.next, success) v)
        × (unlink host p name v ≡ done success z)
        × (look_up host p spelled z ≡ done (none, enoent) z)
        × (lookup (v.heap w.next).id z.metadata ≡ none)
        × ((z.heap p).children ≡ some (remove_first (v.heap w.next).id ids))
        × (z.sent ≡ w.sent)
  create-unlink p w name spelled mode ids known found old listed distinct_ids cached directory
        online other_ids lower regular =
      let same : ids_of (w.heap p).children ≡ ids = ap ids_of listed in
      let distinct = subst Distinct (sym same) distinct_ids in
      let others = subst (λ l. Others host name l w) (sym same) other_ids in
      let (v, run, grown) =
        create_grows host p w known found old distinct name mode cached online in
      (
        v,
        z name p w v grown others distinct old directory,
        run,
        unlinks name p w v grown others distinct old directory cached online,
        looks_up_nothing name p w v grown others distinct old directory spelled known found cached
            lower regular,
        gone name p w v grown others distinct old directory,
        children_z name p w v grown others distinct old directory
            ∙ ap (λ j. some (remove_first j (ids_of (w.heap p).children))) (sym grown.here)
            ∙ ap (λ l. some (remove_first (v.heap w.next).id l)) same,
        quiet name p w v grown others distinct old directory,
      )
