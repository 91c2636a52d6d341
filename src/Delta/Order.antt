-- ===== src/Delta/Order.antt =====
-- The order of the deltas: deltaLoop walks a Go map, whose order is any. Here the list of deltas is
-- any list, and the theorem compares two orders of the same deltas.
use onedriver.Prelude.{
  String, true, false, none, some, List, [], ◌∷◌, ◌≡◌, ◌≢◌, refl, sym, ◌∙◌, str_eq, eq_refl, lookup,
  lookup-insert, ap,
}
use onedriver.Host.{Host}
use onedriver.World.{Inode, Ptr, World, done}
use onedriver.Fields.{is_dir}
use onedriver.Cache.Unlisted.{list_one}
use onedriver.Cache.{holds, ids_of}
use onedriver.Cache.Children.{to_lower, get_children_id}
use onedriver.Item.{ok}
use onedriver.Graph.{AuthRef}
use onedriver.Delta.{apply_delta, apply_all}
use onedriver.Cache.Members.{holds-single}
use onedriver.Delta.Entered.{IsNew, Entered, apply_delta_enters}
use onedriver.Delta.Joins.{lookup-Entered, IsNew-Entered, apply_delta_skips, joins_folder}

module _ (host : Host) where
  -- A folder below the directory at `q` and two items of it, all new on the server.
  pub record Arrived (first folder second q : Ptr) (above : String) (w : World host) : Type 0 where
    pub cached : lookup above w.metadata ≡ some q
    pub named : str_eq above "" ≡ false
    pub folder_new : IsNew folder above w
    pub first_new : IsNew first (w.heap folder).id w
    pub second_new : IsNew second (w.heap folder).id w
    pub folder_named : str_eq (w.heap folder).id "" ≡ false
    pub pointers :
        (first ≢ folder)
        × (second ≢ folder)
        × (first ≢ second)
        × (folder ≢ q)
        × (first ≢ q)
        × (second ≢ q)
    pub first_folder : (w.heap first).id ≢ (w.heap folder).id
    pub second_folder : (w.heap second).id ≢ (w.heap folder).id
    pub first_second : (w.heap first).id ≢ (w.heap second).id
    pub directory : is_dir (w.heap folder) ≡ true
    pub no_listing : (w.heap folder).children ≡ none
    pub unlisted : holds (w.heap folder).id (ids_of (w.heap q).children) ≡ false

  module _ (first folder second q : Ptr) (above : String) (w : World host)
      (new : Arrived first folder second q above w) where
    open new use {
      cached, named, folder_new, first_new, second_new, folder_named, pointers, first_folder,
      second_folder, first_second, directory, no_listing, unlisted,
    }

    folder_joins :
        (u : World host) × (apply_delta host folder w ≡ done none u)
        × (lookup (w.heap folder).id u.metadata ≡ some folder)
        × (ids_of (u.heap folder).children ≡ [])
        × (is_dir (u.heap folder) ≡ true)
        × Entered folder q w u
    folder_joins =
        let (u, run, step) =
          apply_delta_enters host folder q above w folder_new cached named pointers.3 in
        (
          u,
          run,
          rw step.metadata (rw lookup-insert (rw eq_refl)),
          rw step.kept (rw no_listing refl),
          step.same_kind folder ∙ directory,
          step,
        )

    -- The deltas of the three, in two orders.
    abbrev child_first : List (String × Ptr)
    child_first =
        ((w.heap first).id, first)
        ∷ ((w.heap folder).id, folder)
        ∷ ((w.heap second).id, second)
        ∷ []

    abbrev folder_first : List (String × Ptr)
    folder_first =
        ((w.heap folder).id, folder)
        ∷ ((w.heap first).id, first)
        ∷ ((w.heap second).id, second)
        ∷ []

    -- The directory's listing is the second item alone, for whatever the server holds.
    skips_child :
        (auth : AuthRef)
        → (v : World host) × (apply_all host child_first w ≡ done tt v)
          × (lookup (w.heap first).id v.metadata ≡ none)
          × (get_children_id host (w.heap folder).id auth v
              ≡ done (ok ((to_lower host (w.heap second).name, second) ∷ [])) v)
    unfolding apply_all
    skips_child auth =
        let id = (w.heap folder).id in
        let (u, run, found, empty, dir, step) = folder_joins in
        let same = step.elsewhere second pointers.1 pointers.5 in
        let item = IsNew-Entered host step pointers.1 pointers.5 second_folder second_new in
        let (v, run', step', listing, found', own) =
          joins_folder host second folder id u item found folder_named pointers.1
            (rw same second_folder) [] empty (unfold holds in refl) in
        let skip =
          apply_delta_skips host first id w first_new.place folder_new.unknown
            folder_new.unstored in
        let same₁ = step.elsewhere first pointers.0 pointers.4 in
        let same₂ = step'.elsewhere first pointers.2 pointers.0 in
        let rest =
          IsNew-Entered host step' pointers.2 pointers.0 (rw (same₁, same) first_second)
            (IsNew-Entered host step pointers.0 pointers.4 first_folder first_new) in
        (
          v,
          rw (skip, run, run') refl,
          rw (same₂, same₁) at rest.unknown,
          list_one host id (w.heap second).id folder second auth v found' (rw same at own)
                (step'.same_kind folder ∙ dir) (rw listing (rw same refl))
              ∙ ap (λ (n : String). done (ok ((to_lower host n, second) ∷ [])) v)
                  (step'.same_name second ∙ ap (λ (i : Inode). i.name) same),
        )

    -- The directory lists both items, and the cache has both.
    keeps_children :
        (v : World host) × (apply_all host folder_first w ≡ done tt v)
        × (lookup (w.heap first).id v.metadata ≡ some first)
        × (lookup (w.heap second).id v.metadata ≡ some second)
        × ((v.heap folder).children ≡ some ((w.heap first).id ∷ (w.heap second).id ∷ []))
    unfolding apply_all
    keeps_children =
        let id = (w.heap folder).id in
        let (u, run, found, empty, dir, step) = folder_joins in
        let same₁ = step.elsewhere first pointers.0 pointers.4 in
        let same₂ = step.elsewhere second pointers.1 pointers.5 in
        let (u', run', step', listing', found', own') =
          joins_folder host first folder id u
            (IsNew-Entered host step pointers.0 pointers.4 first_folder first_new) found
            folder_named pointers.0 (rw same₁ first_folder) [] empty (unfold holds in refl) in
        let apart : second ≢ first = λ e. pointers.2 (sym e) in
        let other : (w.heap second).id ≢ (w.heap first).id = λ e. first_second (sym e) in
        let same₃ = step'.elsewhere second apart pointers.1 in
        let item =
          IsNew-Entered host step' apart pointers.1 (rw (same₂, same₁) other)
            (IsNew-Entered host step pointers.1 pointers.5 second_folder second_new) in
        let listed : ids_of (u'.heap folder).children ≡ (w.heap first).id ∷ [] =
          rw listing' (rw same₁ refl) in
        let (v, run₂, step₂, listing₂, found₂, own₂) =
          joins_folder host second folder id u' item found' folder_named pointers.1
            (rw (same₃, same₂) second_folder) _ listed
            (holds-single _ _ (rw (same₃, same₂) first_second)) in
        (
          v,
          rw (run, run', run₂) refl,
          lookup-Entered host step₂ (w.heap first).id (rw (same₃, same₂) other)
              ∙ (rw same₁ at own'),
          rw (same₃, same₂) at own₂,
          rw listing₂ (rw (same₃, same₂) refl),
        )

    -- A folder and two items of it that are all new on the server, the folder below a directory in
    -- memory, and the deltas in two orders. If the first item comes before its folder, and the second
    -- after it, the loop leaves the first out of the cache, and the folder's listing is the second
    -- item alone, without a request to the server. If the folder comes first, both items are in the
    -- cache and the folder lists both.
    pub apply_all_order :
        (auth : AuthRef)
        → ((v : World host) × (apply_all host child_first w ≡ done tt v)
            × (lookup (w.heap first).id v.metadata ≡ none)
            × (get_children_id host (w.heap folder).id auth v
                ≡ done (ok ((to_lower host (w.heap second).name, second) ∷ [])) v))
          × ((v : World host) × (apply_all host folder_first w ≡ done tt v)
              × (lookup (w.heap first).id v.metadata ≡ some first)
              × (lookup (w.heap second).id v.metadata ≡ some second)
              × ((v.heap folder).children ≡ some ((w.heap first).id ∷ (w.heap second).id ∷ [])))
    apply_all_order auth = (skips_child auth, keeps_children)
