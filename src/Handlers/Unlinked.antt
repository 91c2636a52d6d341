-- ===== src/Handlers/Unlinked.antt =====
-- What an Unlink that succeeds has removed.
use onedriver.Prelude.{
  String, Bool, true, false, Option, none, some, ◌≡◌, ◌⊎◌, inl, inr, refl, subst, lookup,
  if◌then◌else◌,
}
use onedriver.Item.{Result, ok, fail}
use onedriver.Host.{Host, BucketLaws}
use onedriver.World.{Ptr, World, done, pure, ◌>>=◌, load}
use onedriver.World.Mode.{Ends-done}
use onedriver.World.Inversion.{and_then-eq-done, checked_only}
use onedriver.Fields.{is_local_id}
use onedriver.Graph
use onedriver.Graph.{no_auth, shared_auth}
use onedriver.Cache.{delete_id}
use onedriver.Cache.Delete.{Absent, delete_id-Absent}
use onedriver.Cache.Content.{delete_content}
use onedriver.Cache.Children.{get_child}
use onedriver.Open.{Errno, success, erofs}
use onedriver.Cache.Named.{IsNamed, get_child-IsNamed}
use onedriver.Handlers.{unlink_local, unlink_removed, unlink_child, unlink}

module _ (host : Host) (laws : BucketLaws host) where
  -- The cache has no item under the id, in memory, and the database no contents.
  pub record IsGone (id : String) (w : World host) : Type 0 where
    pub memory : lookup id w.metadata ≡ none
    pub content : host.bucket_get w.content_bucket id ≡ none

  unlink_local-IsGone :
      (id : String) (v w : World host) (e : Errno) → unlink_local host id v ≡ done e w → IsGone id w
  unfolding unlink_local delete_content
  unlink_local-IsGone id v w e h =
      let (_, u, deleted, rest) =
        and_then-eq-done (delete_id host id v)
          (λ _. do ignored ← delete_content host id; pure success) h in
      let last : record u { content_bucket = host.bucket_delete u.content_bucket id } ≡ w = cc in
      subst (IsGone id) last (record {
        memory =
            Ends-done (Absent host id) (delete_id host id) v (delete_id-Absent host id) deleted;
        content = laws.get-delete_self u.content_bucket id;
      })

  -- The id was made here, or the server has accepted the deletion.
  abbrev pub Accepts : String → World host → Type 0
  Accepts id u =
      (is_local_id id ≡ true)
      ⊎ ((v : World host) × (Graph.remove host id shared_auth u ≡ done none v))

  unlink_removed-IsGone :
      (id : String) (err : Option String) (v w : World host)
      → unlink_removed host id err v ≡ done success w
      → (err ≡ none) × IsGone id w
  unfolding unlink_removed
  unlink_removed-IsGone id none v w h = (refl, unlink_local-IsGone id v w success h)
  unlink_removed-IsGone id (some err) v w h = cc

  unlinked-IsGone :
      (offline local : Bool) (id : String) (u w : World host)
      → (if offline
            then pure erofs
            else if local
            then unlink_local host id
            else (do err ← Graph.remove host id shared_auth; unlink_removed host id err))
          u
        ≡ done success w
      → (offline ≡ false)
        × IsGone id w
        × ((local ≡ true) ⊎ ((v : World host) × (Graph.remove host id shared_auth u ≡ done none v)))
  unlinked-IsGone true local id u w h = cc
  unlinked-IsGone false true id u w h = (refl, unlink_local-IsGone id u w success h, inl refl)
  unlinked-IsGone false false id u w h =
      let (err, v, asked, rest) =
        and_then-eq-done (Graph.remove host id shared_auth u) (unlink_removed host id) h in
      let (none_left, gone) = unlink_removed-IsGone id err v w rest in
      (
        refl,
        gone,
        inr (v, subst (λ o. Graph.remove host id shared_auth u ≡ done o v) none_left asked),
      )

  unlink_child-IsGone :
      (child : Result Ptr) (u w : World host)
      → unlink_child host child u ≡ done success w
      → (q : Ptr) × (child ≡ ok q)
        × (u.offline ≡ false)
        × IsGone (u.heap q).id w
        × Accepts (u.heap q).id u
  unfolding unlink_child
  unlink_child-IsGone (fail err) u w h = cc
  unlink_child-IsGone (ok q) u w h =
      let (online, gone, accepts) =
        unlinked-IsGone u.offline (is_local_id (u.heap q).id) (u.heap q).id u w h in
      (q, refl, online, gone, accepts)

  find_child-IsGone :
      (id name : String) (w w' : World host)
      → (do child ← get_child host id name no_auth; unlink_child host child) w ≡ done success w'
      → (q : Ptr) × (u : World host) × (get_child host id name no_auth w ≡ done (ok q) u)
        × IsNamed host name q u
        × (u.offline ≡ false)
        × IsGone (u.heap q).id w'
        × Accepts (u.heap q).id u
  find_child-IsGone id name w w' h =
      let (child, u, found, rest) =
        and_then-eq-done (get_child host id name no_auth w) (unlink_child host) h in
      let (q, is, online, gone, accepts) = unlink_child-IsGone child u w' rest in
      let run = subst (λ c. get_child host id name no_auth w ≡ done c u) is found in
      (q, u, run, get_child-IsNamed host id name no_auth q w u run, online, gone, accepts)

  -- An Unlink that succeeds has found a child of that name, up to upper and lower case, online; the
  -- child's id is gone from memory, and its contents from the database, and unless the id was made
  -- here, the server has accepted the deletion.
  pub unlink-IsGone :
      (p : Ptr) (name : String) (w w' : World host)
      → unlink host p name w ≡ done success w'
      → (q : Ptr) × (u : World host) × (get_child host (w.heap p).id name no_auth w ≡ done (ok q) u)
        × IsNamed host name q u
        × (u.offline ≡ false)
        × IsGone (u.heap q).id w'
        × Accepts (u.heap q).id u
  unfolding unlink
  unlink-IsGone p name w w' h = find_child-IsGone (w.heap p).id name w w' (
      checked_only (w.heap p).has_cache
        (do i ← load p; child ← get_child host i.id name no_auth; unlink_child host child) w h)
