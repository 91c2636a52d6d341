-- ===== src/Manager/Ticks.antt =====
-- A tick of the upload loop: what it leaves, and that it starts what has not started.
use onedriver.Prelude.{
  String, true, some, List, [], ◌∷◌, ◌≡◌, refl, sym, ap, subst, ◌∙◌, arith, inl, inr, str_eq,
  lookup, delete, ==_self, Bool-cases,
}
use onedriver.Item.{UploadState, not_started, started, complete, errored}
use onedriver.World.{Ptr}
use onedriver.Manager.{Manager, tick_session, tick_list, has}

-- A tick moves no session and stops no goroutine.
pub record Ticks (m n : Manager) : Type 0 where
  pub memory : n.memory ≡ m.memory
  pub running : n.running ≡ m.running
  pub launched : (p : Ptr) → has p m.launched ≡ true → has p n.launched ≡ true

tick_session-Ticks : (e : String × Ptr) (m : Manager) → Ticks m (tick_session e m)
unfolding tick_session has
tick_session-Ticks (k, p) m = go (m.memory p).state
  where
    go :
        (state : UploadState)
        → Ticks m (elim state [
          | not_started ↦ record m { launched = p ∷ m.launched }
          | started ↦ m
          | complete ↦ record m { sessions = delete (m.memory p).id m.sessions }
          | errored ↦ record m { sessions = delete (m.memory p).id m.sessions }
        ])
    go not_started = record { memory = refl; running = refl; launched = λ q h. ground (arith, h) }
    go started = record { memory = refl; running = refl; launched = λ q h. h }
    go complete = record { memory = refl; running = refl; launched = λ q h. h }
    go errored = record { memory = refl; running = refl; launched = λ q h. h }

pub tick_list-Ticks : (es : List (String × Ptr)) (m : Manager) → Ticks m (tick_list es m)
unfolding tick_list
tick_list-Ticks [] m = record { memory = refl; running = refl; launched = λ q h. h }
tick_list-Ticks (e ∷ es) m =
    let first = tick_session-Ticks e m in
    let rest = tick_list-Ticks es (tick_session e m) in
    record {
      memory = rest.memory ∙ first.memory;
      running = rest.running ∙ first.running;
      launched = λ q h. rest.launched q (first.launched q h);
    }

launches_here :
    (k : String) (q : Ptr) (m : Manager)
    → (m.memory q).state ≡ not_started
    → has q (tick_session (k, q) m).launched ≡ true
unfolding tick_session has
launches_here k q m new = rw (new, tick_session) (rw ==_self refl)

-- A session that has not started, and that the table has, gets a goroutine.
pub tick_list-launches :
    (k : String) (q : Ptr) (es : List (String × Ptr)) (m : Manager)
    → lookup k es ≡ some q
    → (m.memory q).state ≡ not_started
    → has q (tick_list es m).launched ≡ true
unfolding tick_list lookup
tick_list-launches k q [] m h new = cc
tick_list-launches k q ((j, p) ∷ es) m h new = elim (Bool-cases (str_eq j k)) [
  | inl hit ↦
      let same : p ≡ q = ground (arith, h) in
      (tick_list-Ticks es (tick_session (j, p) m)).launched q (
        subst (λ r. has q (tick_session (j, r) m).launched ≡ true) (sym same)
          (launches_here j q m new))
  | inr miss ↦
      tick_list-launches k q es (tick_session (j, p) m) (rw miss at h)
        (ap (λ f. (f q).state) (tick_session-Ticks (j, p) m).memory ∙ new)
]
