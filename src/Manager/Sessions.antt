-- ===== src/Manager/Sessions.antt =====
-- The table of sessions: each stands under its own id, and a tick forgets just those that have
-- ended.
use onedriver.Prelude.{
  String, Bool, true, false, none, some, List, [], ◌∷◌, ◌≡◌, refl, sym, subst, ◌∙◌, arith, inl, inr,
  if◌then◌else◌, str_eq, eq_iff, lookup, insert, delete, lookup-insert, lookup-delete, ◌==◌,
  Bool-cases, Option-cases,
}
use onedriver.Item.{UploadState, not_started, started, complete, errored}
use onedriver.Upload.{is_large}
use onedriver.World.{Ptr, UploadSession}
use onedriver.Manager.{
  Manager, set_state, cancel_old, receive, tick_session, tick_list, tick, begin, finish, Step,
  receives, ticks, begins, finishes, Reach, here, next,
}

-- Every entry stands under the id of its session, and no id stands twice.
abbrev pub Tidy : (Ptr → UploadSession) → List (String × Ptr) → Type 0
Tidy memory [] = Unit
Tidy memory ((k, p) ∷ es) = ((memory p).id ≡ k) × (lookup k es ≡ none) × Tidy memory es

abbrev pub IsTidy : Manager → Type 0
IsTidy m = Tidy m.memory m.sessions

delete_absent :
    (j k : String) (es : List (String × Ptr)) → lookup j es ≡ none → lookup j (delete k es) ≡ none
delete_absent j k es h = rw lookup-delete (ground arith)

module _ (memory : Ptr → UploadSession) where
  insert-Tidy :
      (k : String) (p : Ptr) (es : List (String × Ptr))
      → (memory p).id ≡ k
      → Tidy memory es
      → Tidy memory (insert k p es)
  unfolding insert lookup
  insert-Tidy k p [] e t = (e, refl, tt)
  insert-Tidy k p ((j, q) ∷ es) e t = elim (Bool-cases (str_eq j k)) [
    | inl same ↦ rw same (e, ground (arith, eq_iff j k), t.2)
    | inr other ↦
        rw other
          (t.0, rw lookup-insert (ground (arith, eq_iff j k, eq_iff k j)), insert-Tidy k p es e t.2)
  ]

  delete-Tidy : (k : String) (es : List (String × Ptr)) → Tidy memory es → Tidy memory (delete k es)
  unfolding delete lookup
  delete-Tidy k [] t = tt
  delete-Tidy k ((j, q) ∷ es) t = elim (Bool-cases (str_eq j k)) [
    | inl same ↦ rw same (delete-Tidy k es t.2)
    | inr other ↦ rw other (t.0, delete_absent j k es t.1, delete-Tidy k es t.2)
  ]

set_state-Tidy :
    (memory : Ptr → UploadSession) (p : Ptr) (state : UploadState) (es : List (String × Ptr))
    → Tidy memory es
    → Tidy (set_state memory p state) es
unfolding set_state
set_state-Tidy memory p state [] t = tt
set_state-Tidy memory p state ((k, q) ∷ es) t = (id_kept, t.1, set_state-Tidy memory p state es t.2)
  where
    id_kept : (if p == q then record (memory q) { state = state } else memory q).id ≡ k
    id_kept = elim (Bool-cases (p == q)) [ inl h ↦ rw h t.0 | inr h ↦ rw h t.0 ]

tick_session-IsTidy : (e : String × Ptr) (m : Manager) → IsTidy m → IsTidy (tick_session e m)
unfolding tick_session
tick_session-IsTidy (k, p) m t = go (m.memory p).state
  where
    go :
        (state : UploadState)
        → IsTidy (elim state [
          | not_started ↦ record m { launched = p ∷ m.launched }
          | started ↦ m
          | complete ↦ record m { sessions = delete (m.memory p).id m.sessions }
          | errored ↦ record m { sessions = delete (m.memory p).id m.sessions }
        ])
    go not_started = t
    go started = t
    go complete = delete-Tidy m.memory (m.memory p).id m.sessions t
    go errored = delete-Tidy m.memory (m.memory p).id m.sessions t

tick_list-IsTidy : (es : List (String × Ptr)) (m : Manager) → IsTidy m → IsTidy (tick_list es m)
unfolding tick_list
tick_list-IsTidy [] m t = t
tick_list-IsTidy (e ∷ es) m t = tick_list-IsTidy es (tick_session e m) (tick_session-IsTidy e m t)

pub receive-IsTidy : (p : Ptr) (m : Manager) → IsTidy m → IsTidy (receive p m)
unfolding receive cancel_old
receive-IsTidy p m t = elim (Option-cases (lookup (m.memory p).id m.sessions)) [
  | inl new ↦ rw new (insert-Tidy m.memory (m.memory p).id p m.sessions refl t)
  | inr (q, old) ↦ rw old (elim (Bool-cases (is_large (m.memory q).size)) [
    | inl large ↦ rw large (insert-Tidy m.memory (m.memory p).id p m.sessions refl t)
    | inr small ↦ rw small (insert-Tidy m.memory (m.memory p).id p m.sessions refl t)
  ])
]

Step-IsTidy : {m n : Manager} → Step m n → IsTidy m → IsTidy n
unfolding tick begin finish
Step-IsTidy {m} (receives p) t = receive-IsTidy p m t
Step-IsTidy {m} ticks t = tick_list-IsTidy m.sessions m t
Step-IsTidy {m} (begins p h) t = set_state-Tidy m.memory p started m.sessions t
Step-IsTidy {m} (finishes p state h) t = set_state-Tidy m.memory p state m.sessions t

-- In every state that the loop and the goroutines reach, each session stands under its own id, and
-- no id has two sessions.
pub Reach-IsTidy : {m n : Manager} → IsTidy m → Reach m n → IsTidy n
Reach-IsTidy t here = t
Reach-IsTidy t (next r s) = Step-IsTidy s (Reach-IsTidy t r)

-- Complete and errored sessions have ended.
unfoldable pub ended : UploadState → Bool
ended not_started = false
ended started = false
ended complete = true
ended errored = true

-- Whether the table has a session of this id that has ended.
unfoldable pub has_ended : (Ptr → UploadSession) → String → List (String × Ptr) → Bool
has_ended memory k es = elim (lookup k es) [ none ↦ false | some p ↦ ended (memory p).state ]

has_ended_absent :
    (memory : Ptr → UploadSession) (k : String) (es : List (String × Ptr))
    → lookup k es ≡ none
    → has_ended memory k es ≡ false
unfolding has_ended
has_ended_absent memory k es h = rw (h, has_ended)

has_ended_cons :
    (memory : Ptr → UploadSession) (k j : String) (p : Ptr) (es : List (String × Ptr))
    → has_ended memory k ((j, p) ∷ es)
      ≡ (if str_eq j k then ended (memory p).state else has_ended memory k es)
unfolding has_ended lookup
has_ended_cons memory k j p es = elim (Bool-cases (str_eq j k)) [
  | inl hit ↦ rw (hit, has_ended)
  | inr miss ↦ rw (miss, has_ended)
]

memory-tick_session : (e : String × Ptr) (m : Manager) → (tick_session e m).memory ≡ m.memory
unfolding tick_session
memory-tick_session (k, p) m = ground arith

lookup-tick_session :
    (j k : String) (p : Ptr) (m : Manager)
    → (m.memory p).id ≡ j
    → lookup k (tick_session (j, p) m).sessions ≡ (
        if ended (m.memory p).state
        then (if str_eq j k then none else lookup k m.sessions)
        else lookup k m.sessions)
unfolding tick_session ended
lookup-tick_session j k p m e = ground (arith, lookup-delete k (m.memory p).id m.sessions)

lookup-tick_list :
    (k : String) (es : List (String × Ptr)) (m : Manager)
    → Tidy m.memory es
    → lookup k (tick_list es m).sessions
      ≡ (if has_ended m.memory k es then none else lookup k m.sessions)
unfolding tick_list has_ended
lookup-tick_list k [] m t = unfold lookup in refl
lookup-tick_list k ((j, p) ∷ es) m t =
    let same = memory-tick_session (j, p) m in
    let ih =
      lookup-tick_list k es (tick_session (j, p) m) (subst (λ mem. Tidy mem es) (sym same) t.2) in
    let step = lookup-tick_session j k p m t.0 in
    let cons = has_ended_cons m.memory k j p es in
    ih
    ∙ rw (same, step, cons)
        (elim (Bool-cases (str_eq j k)) [
          | inl hit ↦
              let gone : lookup k es ≡ none =
                subst (λ i. lookup i es ≡ none) ((eq_iff j k).0 hit) t.1 in
              rw (has_ended_absent m.memory k es gone, hit) refl
          | inr miss ↦ rw miss (ground arith)
        ])

-- A tick forgets a session exactly if it has ended, and leaves the others where they are.
pub lookup-tick :
    (k : String) (m : Manager)
    → IsTidy m
    → lookup k (tick m).sessions
      ≡ (if has_ended m.memory k m.sessions then none else lookup k m.sessions)
unfolding tick
lookup-tick k m t = lookup-tick_list k m.sessions m t
