-- ===== src/Manager/Overtaken.antt =====
-- graph/upload_manager.go: a newer session for an item whose upload runs. The loop replaces the older
-- one in its table and cancels its URL; no step takes the goroutine of the older one away.
use onedriver.Prelude.{
  String, true, false, Option, none, some, List, [], ◌∷◌, ◌≡◌, refl, sym, ap, subst, ◌∙◌, arith,
  inl, inr, str_eq, eq_iff, eq_refl, lookup, lookup-insert, ◌==◌, ==_self, Bool-cases,
}
use onedriver.Item.{UploadState, not_started, started, complete}
use onedriver.World.{Ptr, UploadSession}
use onedriver.Upload.{is_large}
use onedriver.Manager.Sessions.{Tidy, IsTidy, receive-IsTidy, has_ended, ended, lookup-tick}
use onedriver.Manager.Ticks.{tick_list-Ticks, tick_list-launches}
use onedriver.Manager.{
  Manager, set_state, cancel_old, receive, tick, without, begin, finish, has, receives, ticks,
  begins, finishes, Reach, here, next,
}

-- Cancelling a session moves nothing but the cancelled URLs.
cancel_old-keeps :
    (m : Manager) (old : Option Ptr)
    → ((cancel_old m old).memory ≡ m.memory) × ((cancel_old m old).running ≡ m.running)
unfolding cancel_old
cancel_old-keeps m none = (refl, refl)
cancel_old-keeps m (some p) = elim (Bool-cases (is_large (m.memory p).size)) [
  | inl large ↦ rw large (refl, refl)
  | inr small ↦ rw small (refl, refl)
]

-- The session under an id of the table has that id.
Tidy-id :
    (memory : Ptr → UploadSession) (k : String) (p : Ptr) (es : List (String × Ptr))
    → Tidy memory es
    → lookup k es ≡ some p
    → (memory p).id ≡ k
unfolding lookup
Tidy-id memory k p [] tidy h = cc
Tidy-id memory k p ((j, q) ∷ es) tidy h = elim (Bool-cases (str_eq j k)) [
  | inl hit ↦
      let same : q ≡ p = ground (arith, h) in
      subst (λ r. (memory r).id ≡ k) same (tidy.0 ∙ (eq_iff j k).0 hit)
  | inr miss ↦ Tidy-id memory k p es tidy.2 (rw miss at h)
]

id-set_state :
    (memory : Ptr → UploadSession) (p : Ptr) (state : UploadState) (r : Ptr)
    → (set_state memory p state r).id ≡ (memory r).id
unfolding set_state
id-set_state memory p state r = elim (Bool-cases (p == r)) [
  | inl hit ↦ rw hit refl
  | inr other ↦ rw other refl
]

module _ (q : Ptr) (m : Manager) where
  -- The loop takes a session from the queue, and the next tick starts it.
  abbrev taken : Manager
  taken = tick (receive q m)

  receive-keeps : ((receive q m).memory ≡ m.memory) × ((receive q m).running ≡ m.running)
  unfolding receive
  receive-keeps = cancel_old-keeps m (lookup (m.memory q).id m.sessions)

  receive-lists : lookup (m.memory q).id (receive q m).sessions ≡ some q
  unfolding receive
  receive-lists = rw lookup-insert (rw eq_refl refl)

  taken-launches : (m.memory q).state ≡ not_started → has q taken.launched ≡ true
  unfolding tick
  taken-launches new =
      tick_list-launches (m.memory q).id q (receive q m).sessions (receive q m) receive-lists
        (ap (λ f. (f q).state) receive-keeps.0 ∙ new)

  taken-runs : taken.running ≡ m.running
  unfolding tick
  taken-runs = (tick_list-Ticks (receive q m).sessions (receive q m)).running ∙ receive-keeps.1

  taken-memory : taken.memory ≡ m.memory
  unfolding tick
  taken-memory = (tick_list-Ticks (receive q m).sessions (receive q m)).memory ∙ receive-keeps.0

  taken-lists :
      IsTidy m → (m.memory q).state ≡ not_started → lookup (m.memory q).id taken.sessions ≡ some q
  unfolding has_ended ended
  taken-lists tidy new =
      let r = receive q m in
      let waits : (r.memory q).state ≡ not_started = ap (λ f. (f q).state) receive-keeps.0 ∙ new in
      let lives : has_ended r.memory (m.memory q).id r.sessions ≡ false =
        rw (receive-lists, has_ended) (rw waits refl) in
      lookup-tick (m.memory q).id r (receive-IsTidy q m tidy) ∙ rw lives receive-lists

  -- While an upload of the item runs, a newer session for it comes in.
  module _ (p : Ptr) (tidy : IsTidy m) (uploads : has p m.running ≡ true)
      (idle : has q m.running ≡ false) (new : (m.memory q).state ≡ not_started) where
    abbrev overtaken : Manager
    overtaken = finish q complete (begin q taken)

    begun : has q (begin q taken).running ≡ true
    unfolding begin has
    begun = rw (==_self q)

    reaches : Reach m overtaken
    reaches =
        next (next (next (next here (receives q)) ticks) (begins q (taken-launches new)))
          (finishes q complete begun)

    ends_first :
        ((overtaken.memory q).state ≡ complete)
        × (has q overtaken.running ≡ false)
        × (has p overtaken.running ≡ true)
        × (lookup (m.memory q).id overtaken.sessions ≡ some q)
    unfolding finish begin set_state has without
    ends_first = (
      rw ==_self refl,
      rw (==_self q) (rw taken-runs idle),
      rw (==_self q) (rw taken-runs uploads),
      taken-lists tidy new,
    )

    id-overtaken : (r : Ptr) → (overtaken.memory r).id ≡ (m.memory r).id
    unfolding finish begin
    id-overtaken r =
        id-set_state (set_state taken.memory q started) q complete r
        ∙ id-set_state taken.memory q started r
        ∙ ap (λ f. (f r).id) taken-memory

    -- While the session that a tidy table has for an item is being uploaded, another session for the
    -- same item, which has not started and has no goroutine, can take its place in the table and be
    -- complete without a goroutine, while the goroutine of the older session still runs; that one
    -- may then end as complete too.
    pub overtakes :
        lookup (m.memory q).id m.sessions ≡ some p
        → (n : Manager) × Reach m n
          × ((n.memory q).state ≡ complete)
          × (has q n.running ≡ false)
          × (has p n.running ≡ true)
          × ((n.memory p).id ≡ (n.memory q).id)
          × (lookup (m.memory q).id n.sessions ≡ some q)
          × Reach n (finish p complete n)
    overtakes known =
        let (done, gone, runs, listed) = ends_first in
        let same = Tidy-id m.memory (m.memory q).id p m.sessions tidy known in
        (
          overtaken,
          reaches,
          done,
          gone,
          runs,
          id-overtaken p ∙ same ∙ sym (id-overtaken q),
          listed,
          next here (finishes p complete runs),
        )
