-- ===== src/Manager/Stuck.antt =====
-- A session whose upload returned without leaving the state `started`.
use onedriver.Prelude.{
  String, true, false, List, [], ◌∷◌, ◌≡◌, ◌≢◌, refl, sym, subst, ap, ◌∙◌, arith, ==_ne, delete,
}
use onedriver.Item.{UploadState, not_started, started, complete, errored}
use onedriver.World.{Ptr, UploadSession}
use onedriver.Manager.{
  Manager, set_state, cancel_old, receive, tick_session, tick_list, tick, without, begin, finish,
  has, Step, receives, ticks, begins, finishes, Reach, here, next,
}

-- The session counts as started, and no goroutine will upload it or does.
pub record IsStuck (p : Ptr) (m : Manager) : Type 0 where
  pub state : (m.memory p).state ≡ started
  pub launched : has p m.launched ≡ false
  pub running : has p m.running ≡ false

has-without : (p q : Ptr) (ps : List Ptr) → has p ps ≡ false → has p (without q ps) ≡ false
unfolding has without
has-without p q [] h = refl
has-without p q (r ∷ ps) h = ground (arith, has-without p q ps)

-- What a list has and what it has not differ.
apart_of_has : (p q : Ptr) (ps : List Ptr) → has p ps ≡ false → has q ps ≡ true → q ≢ p
apart_of_has p q ps h k e = let there : has p ps ≡ true = subst (λ r. has r ps ≡ true) e k in cc

state-set_state_ne :
    (memory : Ptr → UploadSession) (p q : Ptr) (state : UploadState)
    → q ≢ p
    → set_state memory q state p ≡ memory p
unfolding set_state
state-set_state_ne memory p q state apart = rw (==_ne q p apart)

module _ (p : Ptr) where
  tick_session-IsStuck :
      (e : String × Ptr) (m : Manager) → IsStuck p m → IsStuck p (tick_session e m)
  unfolding tick_session has
  tick_session-IsStuck (k, q) m h =
      go (m.memory q).state (λ e. ap (λ r. (m.memory r).state) e ∙ h.state)
    where
      go :
          (state : UploadState)
          → (q ≡ p → state ≡ started)
          → IsStuck p (elim state [
            | not_started ↦ record m { launched = q ∷ m.launched }
            | started ↦ m
            | complete ↦ record m { sessions = delete (m.memory q).id m.sessions }
            | errored ↦ record m { sessions = delete (m.memory q).id m.sessions }
          ])
      go not_started same =
          let other : q ≢ p = λ e. (let no = same e in cc) in
          record {
            state = h.state;
            launched = rw (==_ne p q (λ e. other (sym e))) h.launched;
            running = h.running;
          }
      go started same = h
      go complete same = record { state = h.state; launched = h.launched; running = h.running }
      go errored same = record { state = h.state; launched = h.launched; running = h.running }

  tick_list-IsStuck :
      (es : List (String × Ptr)) (m : Manager) → IsStuck p m → IsStuck p (tick_list es m)
  unfolding tick_list
  tick_list-IsStuck [] m h = h
  tick_list-IsStuck (e ∷ es) m h =
      tick_list-IsStuck es (tick_session e m) (tick_session-IsStuck e m h)

  receive-IsStuck : (q : Ptr) (m : Manager) → IsStuck p m → IsStuck p (receive q m)
  unfolding receive cancel_old
  receive-IsStuck q m h = record {
    state = ground (arith, h.state);
    launched = ground (arith, h.launched);
    running = ground (arith, h.running);
  }

  begin-IsStuck :
      (q : Ptr) (m : Manager) → has q m.launched ≡ true → IsStuck p m → IsStuck p (begin q m)
  unfolding begin has
  begin-IsStuck q m there h =
      let apart = apart_of_has p q m.launched h.launched there in
      record {
        state =
            ap (λ (s : UploadSession). s.state) (state-set_state_ne m.memory p q started apart)
            ∙ h.state;
        launched = has-without p q m.launched h.launched;
        running = rw (==_ne p q (λ e. apart (sym e))) h.running;
      }

  finish-IsStuck :
      (q : Ptr) (state : UploadState) (m : Manager)
      → has q m.running ≡ true
      → IsStuck p m
      → IsStuck p (finish q state m)
  unfolding finish
  finish-IsStuck q state m there h =
      let apart = apart_of_has p q m.running h.running there in
      record {
        state =
            ap (λ (s : UploadSession). s.state) (state-set_state_ne m.memory p q state apart)
            ∙ h.state;
        launched = h.launched;
        running = has-without p q m.running h.running;
      }

  Step-IsStuck : {m n : Manager} → Step m n → IsStuck p m → IsStuck p n
  unfolding tick
  Step-IsStuck {m} (receives q) h = receive-IsStuck q m h
  Step-IsStuck {m} ticks h = tick_list-IsStuck m.sessions m h
  Step-IsStuck {m} (begins q there) h = begin-IsStuck q m there h
  Step-IsStuck {m} (finishes q state there) h = finish-IsStuck q state m there h

  -- A session that counts as started and has no goroutine keeps counting as started, and no
  -- goroutine uploads it, whatever the loop and the goroutines do.
  pub Reach-IsStuck : {m n : Manager} → IsStuck p m → Reach m n → IsStuck p n
  Reach-IsStuck h here = h
  Reach-IsStuck h (next r s) = Step-IsStuck s (Reach-IsStuck h r)
