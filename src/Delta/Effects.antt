-- ===== src/Delta/Effects.antt =====
-- The effects of fetching changes and of applying them.
use onedriver.Prelude.{ℕ, zero, suc, String, Bool, true, false, Option, none, some, List, [], ◌∷◌}
use onedriver.Item.{Bytes, Result, ok, fail, DriveItem, DeltaResponse}
use onedriver.Host.{Host}
use onedriver.World.{Ptr, World, pure, ◌>>◌}
use onedriver.World.Effects.{
  Effects, Respects, Respects-bind, Respects-if, Respects-pure, Respects-result, effect_rules,
}
use onedriver.Graph.Effects.{request-Respects}
use onedriver.Cache.Effects.{get_id-Respects, insert_child-Respects, delete_id-Respects}
use onedriver.Handlers.Effects.{rename-Respects}
use onedriver.Delta.{
  apply_content, apply_rename, apply_known, apply_below, apply_delta, set_delta_link, read_page,
  page_of, poll_deltas, keep_last, set_offline, poll_all, apply_all,
}

module _ {host : Host} {R : World host → World host → Type 0} (e : Effects host R) where
  apply_content-Respects : (delta p : Ptr) → Respects R (apply_content host delta p)
  unfolding apply_content
  apply_content-Respects delta p = search (effect_rules, e) depth 12

  apply_rename-Respects :
      (delta p : Ptr) (parent new_parent : Option Ptr)
      → Respects R (apply_rename host delta p parent new_parent)
  unfolding apply_rename
  apply_rename-Respects delta p (some parent) (some new_parent) =
      search (effect_rules, e, rename-Respects, apply_content-Respects) depth 9
  apply_rename-Respects delta p none new_parent = search (effect_rules, e)
  apply_rename-Respects delta p (some parent) none = search (effect_rules, e)

  apply_known-Respects :
      (delta : Ptr) (found : Option Ptr) → Respects R (apply_known host delta found)
  unfolding apply_known
  apply_known-Respects delta none = search (effect_rules, e, insert_child-Respects)
  apply_known-Respects delta (some p) =
      search (effect_rules, e, get_id-Respects, apply_rename-Respects, apply_content-Respects) depth
        12

  apply_below-Respects :
      (delta : Ptr) (parent : Option Ptr) → Respects R (apply_below host delta parent)
  unfolding apply_below
  apply_below-Respects delta none = search (effect_rules, e)
  apply_below-Respects delta (some parent) =
      search (effect_rules, e, delete_id-Respects, get_id-Respects, apply_known-Respects) depth 9

  apply_delta-Respects : (delta : Ptr) → Respects R (apply_delta host delta)
  unfolding apply_delta
  apply_delta-Respects delta = search (effect_rules, e, get_id-Respects, apply_below-Respects)

  pub apply_all-Respects : (deltas : List (String × Ptr)) → Respects R (apply_all host deltas)
  unfolding apply_all
  apply_all-Respects [] = search (effect_rules, e)
  apply_all-Respects ((id, delta) ∷ deltas) =
      Respects-bind e (apply_delta host delta) _ (apply_delta-Respects delta)
        (λ _. apply_all-Respects deltas)

  keep_last-Respects :
      (items : List DriveItem) (deltas : List (String × Ptr))
      → Respects R (keep_last host items deltas)
  unfolding keep_last
  keep_last-Respects [] deltas = search (effect_rules, e)
  keep_last-Respects (item ∷ items) deltas = search (effect_rules, e, keep_last-Respects items)

  -- Polling also moves the link of the next poll and marks the file system as offline.
  module _ (link : (w : World host) (l : String) → R w (record w { delta_link = l }))
      (offline : (w : World host) (b : Bool) → R w (record w { offline = b })) where
    set_delta_link-Respects : (l : String) → Respects R (set_delta_link host l)
    unfolding set_delta_link
    set_delta_link-Respects l = record { at = λ w. link w _ }

    set_offline-Respects : (b : Bool) → Respects R (set_offline host b)
    unfolding set_offline
    set_offline-Respects b = record { at = λ w. offline w b }

    read_page-Respects : (page : DeltaResponse) → Respects R (read_page host page)
    unfolding read_page
    read_page-Respects page = search (effect_rules, e, set_delta_link-Respects)

    page_of-Respects : (body : Result Bytes) → Respects R (page_of host body)
    unfolding page_of
    page_of-Respects (fail err) = search (effect_rules, e)
    page_of-Respects (ok body) = search (effect_rules, e, read_page-Respects)

    poll_deltas-Respects : Respects R (poll_deltas host)
    unfolding poll_deltas
    poll_deltas-Respects = search (effect_rules, e, request-Respects, page_of-Respects) depth 9

    pub poll_all-Respects :
        (fuel : ℕ) (deltas : List (String × Ptr)) → Respects R (poll_all host fuel deltas)
    unfolding poll_all
    poll_all-Respects zero deltas = search (effect_rules, e)
    poll_all-Respects (suc fuel) deltas =
        Respects-bind e (poll_deltas host) _ poll_deltas-Respects (λ page.
          Respects-result e page (λ err. do set_offline host true; pure (some (deltas, false))) _
            (λ err. search (effect_rules, e, set_offline-Respects))
            (λ (items, more).
              Respects-bind e (keep_last host items deltas) _ (keep_last-Respects items deltas)
                (λ next.
                  Respects-if e more (poll_all host fuel next) (pure (some (next, true)))
                    (poll_all-Respects fuel next) (Respects-pure e (some (next, true))))))
