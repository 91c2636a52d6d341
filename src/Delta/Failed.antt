-- ===== src/Delta/Failed.antt =====
-- What a round whose poll fails leaves behind.
use onedriver.Prelude.{
  ℕ, zero, suc, String, Bool, true, false, Option, none, some, List, [], ◌≡◌, refl, if◌then◌else◌,
  subst, ◌∙◌,
}
use onedriver.Host.{Host}
use onedriver.World.{Ptr, World, done, pure, and_then, get_world, ◌>>=◌, ◌>>◌}
use onedriver.World.Mode.{
  Mode, Same, Same-Effects, at-done, Ends, Ends-bind, Ends-done, Ends-result, Ends-if,
}
use onedriver.World.Inversion.{and_then-eq-done}
use onedriver.Cache.Content.{serialize_all}
use onedriver.Delta.{
  poll_deltas, keep_last, set_offline, poll_all, apply_all, apply_round, finish_round, after_poll,
  delta_round,
}
use onedriver.Delta.Effects.{poll_all-Respects, apply_all-Respects}

module _ {host : Host} where
  -- The root, and the metadata and the link in the database.
  abbrev pub base : Mode host → String × host.Bucket × host.Bucket
  base m = (m.root, m.metadata_bucket, m.delta_bucket)

  abbrev OfflineIfFailed : Option (List (String × Ptr) × Bool) → World host → Type 0
  OfflineIfFailed polled w =
      (deltas : List (String × Ptr)) → polled ≡ some (deltas, false) → w.offline ≡ true

  poll_all-OfflineIfFailed :
      (fuel : ℕ) (deltas : List (String × Ptr)) → Ends OfflineIfFailed (poll_all host fuel deltas)
  unfolding poll_all set_offline
  poll_all-OfflineIfFailed zero deltas = record { at = λ w ds h. cc }
  poll_all-OfflineIfFailed (suc fuel) deltas =
      Ends-bind OfflineIfFailed (poll_deltas host) _ (λ page.
        Ends-result OfflineIfFailed page
          (λ err. do set_offline host true; pure (some (deltas, false))) _
          (λ err. record { at = λ w ds h. refl })
          (λ (items, more). Ends-bind OfflineIfFailed (keep_last host items deltas) _ (λ next.
            Ends-if OfflineIfFailed more (poll_all host fuel next) (pure (some (next, true)))
              (poll_all-OfflineIfFailed fuel next) (record { at = λ w ds h. cc }))))

  skip_serialize :
      (b : Bool) (u w : World host)
      → b ≡ true
      → and_then ((if b then pure tt else serialize_all host) u) (λ _. finish_round host false)
        ≡ done tt w
      → w ≡ u
  unfolding finish_round
  skip_serialize true u w off h = cc
  skip_serialize false u w off h = cc

  apply_round_failed :
      (deltas : List (String × Ptr)) (v w : World host)
      → v.offline ≡ true
      → apply_round host deltas false v ≡ done tt w
      → (w.offline ≡ true) × Same base v w
  unfolding apply_round finish_round
  apply_round_failed deltas v w off h =
      let (_, u, run, h₁) =
        and_then-eq-done (apply_all host deltas v)
          (λ _. do
            x ← get_world
            if x.offline then pure tt else serialize_all host
            finish_round host false)
          h in
      let same =
        at-done (Same (λ m. m)) (apply_all host deltas) v
          (apply_all-Respects (Same-Effects (λ m. m)) deltas) run in
      let same_offline : u.offline ≡ v.offline = cc in
      let last = skip_serialize u.offline u w (same_offline ∙ off) h₁ in (cc, cc)

  after_poll_failed :
      (polled : Option (List (String × Ptr) × Bool)) (u w : World host)
      → OfflineIfFailed polled u
      → after_poll host polled u ≡ done (some false) w
      → (w.offline ≡ true) × Same base u w
  unfolding after_poll
  after_poll_failed none u w failed h = cc
  after_poll_failed (some (deltas, true)) u w failed h =
      let (_, x, _, end) =
        and_then-eq-done (apply_round host deltas true u) (λ _. pure (some true)) h in
      cc
  after_poll_failed (some (deltas, false)) u w failed h =
      let (_, x, run, end) =
        and_then-eq-done (apply_round host deltas false u) (λ _. pure (some false)) h in
      let last : x ≡ w = cc in
      apply_round_failed deltas u w (failed deltas refl)
        (subst (λ y. apply_round host deltas false u ≡ done tt y) last run)

  -- A round whose poll fails, at whatever page and with whatever changes before it, leaves the file
  -- system offline, with the same root, and writes neither metadata nor the link of the next poll
  -- to the database.
  pub delta_round_failed :
      (fuel : ℕ) (v w : World host)
      → delta_round host fuel v ≡ done (some false) w
      → (w.offline ≡ true) × Same base v w
  unfolding delta_round
  delta_round_failed fuel v w h =
      let (polled, u, run, rest) = and_then-eq-done (poll_all host fuel [] v) (after_poll host) h in
      let same =
        at-done (Same base) (poll_all host fuel []) v
          (poll_all-Respects (Same-Effects base) (λ w l. refl) (λ w b. refl) fuel []) run in
      let failed =
        Ends-done OfflineIfFailed (poll_all host fuel []) v (poll_all-OfflineIfFailed fuel [])
          run in
      let (off, end) = after_poll_failed polled u w failed rest in (off, cc)
