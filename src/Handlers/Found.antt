-- ===== src/Handlers/Found.antt =====
-- Create and Lookup: the new file is found under its name, in any spelling of its letters.
use onedriver.Prelude.{
  ℕ, ◌<◌, String, true, false, some, ◌≡◌, refl, ap, ◌∙◌, inl, inr, lookup, lookup-insert, eq_refl,
  Bool-cases,
}
use onedriver.Item.{DriveItem, ok}
use onedriver.Host.{Host}
use onedriver.World.{Ptr, World, done}
use onedriver.Fields.{is_local_id, is_dir, get_mode, get_size, nlink}
use onedriver.Graph.{AuthRef, shared_auth}
use onedriver.Cache.{holds, ids_of}
use onedriver.Cache.Children.{to_lower, get_child}
use onedriver.Cache.Find.{Listed, get_child_finds}
use onedriver.Cache.Members.{Distinct, holds-append}
use onedriver.Open.{success}
use onedriver.File.{Attr, make_attr}
use onedriver.Handlers.Others.{Others, Others-Listed, Listed-append}
use onedriver.Handlers.Grown.{Grown, create_grows}
use onedriver.Handlers.{create, look_up, found_child, ignore}

module _ (host : Host) where
  -- A Lookup whose GetChild finds an inode with a time.
  look_up_finds :
      (p q : Ptr) (spelled : String) (w : World host) {t : ℕ}
      → ignore spelled ≡ false
      → (w.heap p).has_cache ≡ true
      → get_child host (w.heap p).id (to_lower host spelled) shared_auth w ≡ done (ok q) w
      → (w.heap q).mod_time ≡ some t
      → (attr : Attr) × (look_up host p spelled w ≡ done (some (q, attr), success) w)
  unfolding look_up found_child make_attr
  look_up_finds p q spelled w {t} regular cached found timed =
      let i = w.heap q in
      (
        record { size = get_size i; nlink = nlink i; mtime = t; mode = get_mode i },
        simp (regular, cached, found, timed),
      )

  -- A new file is found in its directory.
  module _ (name : String) (p : Ptr) (w v : World host) (grown : Grown name w.next p w v)
      (others : Others host name (ids_of (w.heap p).children) w) where
    open grown use {id, metadata, same}

    pub has_new : lookup id v.metadata ≡ some w.next
    has_new = rw metadata (rw lookup-insert (rw eq_refl refl))

    pub lists :
        Listed host v (to_lower host name) w.next (ids_of (v.heap p).children)
        × (holds id (ids_of (v.heap p).children) ≡ true)
    lists =
        let ids = ids_of (w.heap p).children in
        let listed =
          Others-Listed host name ids id w v metadata
            (λ r older. ap (λ (x : DriveItem). x.name) (same r older)) others in
        rw grown.ids (elim (Bool-cases (holds id ids)) [
          | inl here ↦ rw here (listed, here)
          | inr fresh ↦ rw fresh (
            Listed-append host (to_lower host name) w.next ids id v has_new listed,
            rw holds-append (rw eq_refl refl),
          )
        ])

    pub get_child_new :
        (spelled : String) (auth : AuthRef)
        → is_dir (w.heap p) ≡ true
        → p < w.next
        → to_lower host spelled ≡ to_lower host name
        → get_child host (v.heap p).id spelled auth v ≡ done (ok w.next) v
    get_child_new spelled auth directory old lower =
        get_child_finds host v (to_lower host name) w.next (ap (to_lower host) grown.named) spelled
          (v.heap p).id id p (ids_of (v.heap p).children) auth lower
          (rw (same p old) grown.found_parent) (grown.directory ∙ directory) grown.listing lists.0
          lists.1 has_new

  -- Creating a file, online, below a directory in memory that has an id of the server and whose
  -- children have no repetitions, are all in memory and have other names, up to upper and lower
  -- case, succeeds, and a Lookup in that directory, by any name with the same letters in lower
  -- case that is not ignored, then finds the new inode.
  pub create-look_up :
      (p : Ptr) (w : World host) (name spelled : String) (mode : ℕ)
      → is_local_id (w.heap p).id ≡ false
      → lookup (w.heap p).id w.metadata ≡ some p
      → p < w.next
      → Distinct (ids_of (w.heap p).children)
      → (w.heap p).has_cache ≡ true
      → is_dir (w.heap p) ≡ true
      → w.offline ≡ false
      → Others host name (ids_of (w.heap p).children) w
      → to_lower host (to_lower host spelled) ≡ to_lower host name
      → ignore spelled ≡ false
      → (v : World host) × (create host p name mode w ≡ done (some w.next, success) v)
        × (attr : Attr) × (look_up host p spelled v ≡ done (some (w.next, attr), success) v)
  create-look_up p w name spelled mode known found old distinct cached directory online others lower
        regular =
      let (v, run, grown) =
        create_grows host p w known found old distinct name mode cached online in
      let child =
        get_child_new name p w v grown others (to_lower host spelled) shared_auth directory old
          lower in
      let (attr, looked) =
        look_up_finds p w.next spelled v regular (grown.cached ∙ cached) child grown.timed.1 in
      (v, run, attr, looked)
