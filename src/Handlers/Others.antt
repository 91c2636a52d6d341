-- ===== src/Handlers/Others.antt =====
-- The other children of a directory: in memory, and of other names than the file at hand.
use onedriver.Prelude.{
  ◌<◌, String, false, some, List, [], ◌∷◌, ◌++◌, ◌≡◌, ◌≢◌, refl, ◌∙◌, inl, inr, arith, lookup,
  insert, lookup-insert, str_eq, eq_iff, Bool-cases,
}
use onedriver.Host.{Host}
use onedriver.World.{Ptr, World}
use onedriver.Cache.{holds, remove_first}
use onedriver.Cache.Children.{to_lower}
use onedriver.Cache.Find.{key, Listed}
use onedriver.Cache.Missing.{Missing}
use onedriver.Cache.Members.{Distinct}

module _ (host : Host) where
  -- The children that are there: each in memory, and of another name.
  abbrev pub Others : String → List String → World host → Type 0
  Others name [] w = Unit
  Others name (id ∷ ids) w =
      ((r : Ptr) × (lookup id w.metadata ≡ some r)
        × (r < w.next)
        × (to_lower host (w.heap r).name ≢ to_lower host name))
      × Others name ids w

  -- The children that are there are listed in a world that has one more item, under the id `k`.
  pub Others-Listed :
      (name : String) (ids : List String) (k : String) (w v : World host)
      → v.metadata ≡ insert k w.next w.metadata
      → ((r : Ptr) → r < w.next → (v.heap r).name ≡ (w.heap r).name)
      → Others name ids w
      → Listed host v (to_lower host name) w.next ids
  Others-Listed name [] k w v more kept others = tt
  Others-Listed name (id ∷ ids) k w v more kept others =
      let (r, there, old, other) = others.0 in
      (
        elim (Bool-cases (str_eq k id)) [
          | inl hit ↦ (w.next, rw more (rw lookup-insert (rw hit refl)), λ e. refl)
          | inr miss ↦ (
            r,
            rw more (rw lookup-insert (rw miss there)),
            λ e. (let same = kept r old in absurd (other (rw same at e))),
          )
        ],
        Others-Listed name ids k w v more kept others.1,
      )

  pub Listed-append :
      (name : String) (n : Ptr) (ids : List String) (k : String) (v : World host)
      → lookup k v.metadata ≡ some n
      → Listed host v name n ids
      → Listed host v name n (ids ++ k ∷ [])
  Listed-append name n [] k v here listed = ((n, here, λ e. refl), tt)
  Listed-append name n (id ∷ ids) k v here listed =
      (listed.0, Listed-append name n ids k v here listed.1)

  module _ (name id : String) (w z : World host)
      (same : (j : String) → id ≢ j → lookup j z.metadata ≡ lookup j w.metadata)
      (kept : (r : Ptr) → r < w.next → (z.heap r).name ≡ (w.heap r).name) where
    -- One child that is still there.
    stays :
        (j : String)
        → id ≢ j
        → ((r : Ptr) × (lookup j w.metadata ≡ some r)
            × (r < w.next)
            × (to_lower host (w.heap r).name ≢ to_lower host name))
        → (r : Ptr) × (lookup j z.metadata ≡ some r) × (key host z r ≢ to_lower host name)
    stays j apart (r, there, old, other) =
        let named = kept r old in (r, same j apart ∙ there, λ e. other (rw named at e))

    Others-Missing_absent :
        (ids : List String)
        → holds id ids ≡ false
        → Others name ids w
        → Missing host (to_lower host name) ids z
    unfolding holds
    Others-Missing_absent [] gone others = tt
    Others-Missing_absent (j ∷ ids) gone others = (
      stays j (λ e. ground (arith, eq_iff j id)) others.0,
      Others-Missing_absent ids (ground arith) others.1,
    )

    pub Others-Missing :
        (ids : List String)
        → Distinct ids
        → Others name ids w
        → Missing host (to_lower host name) (remove_first id ids) z
    unfolding remove_first
    Others-Missing [] distinct others = tt
    Others-Missing (j ∷ ids) distinct others = elim (Bool-cases (str_eq j id)) [
      | inl hit ↦
          let here : j ≡ id = (eq_iff j id).0 hit in
          rw hit (Others-Missing_absent ids (rw here at distinct.0) others.1)
      | inr miss ↦ rw miss (
        stays j (λ e. ground (arith, eq_iff j id)) others.0,
        Others-Missing ids distinct.1 others.1,
      )
    ]
