-- ===== src/World/Effects.antt =====
-- What the handlers may do to a world, one effect after the other, and the relations between worlds
-- that hold across all of it.
use onedriver.Prelude.{◌+◌, String, Bool, true, false, Option, none, some, List, ◌∷◌, if◌then◌else◌}
use onedriver.Item.{Auth, HttpRequest, Result, ok, fail}
use onedriver.Host.{Host}
use onedriver.World.{
  Inode, Ptr, World, M, Outcome, UploadSession, done, panic, exit, and_then, pure, ◌>>=◌, ◌>>◌,
  get_world, load, modify, alloc, deref, read_clock, draw, send,
}

-- A relation that holds across each effect of a handler, and across one after the other.
pub record Effects (host : Host) (R : World host → World host → Type 0) : Type 0 where
  pub stays : (w : World host) → R w w
  pub chains : (u v w : World host) → R u v → R v w → R u w
  pub heap : (w : World host) (heap : Ptr → Inode) → R w (record w { heap = heap })
  pub alloc :
      (w : World host) (heap : Ptr → Inode) → R w (record w { heap = heap; next = w.next + 1 })
  pub metadata :
      (w : World host) (entries : List (String × Ptr)) → R w (record w { metadata = entries })
  pub clock : (w : World host) → R w (record w { readings = w.readings + 1 })
  pub random : (w : World host) → R w (record w { draws = w.draws + 1 })
  pub sending : (w : World host) (r : HttpRequest) → R w (record w { sent = r ∷ w.sent })
  pub auth : (w : World host) (a : Auth) → R w (record w { auth = a })
  pub token_file :
      (w : World host) (files : List (String × Auth)) → R w (record w { token_files = files })
  pub drive_type : (w : World host) (t : String) → R w (record w { drive_type = t })
  pub content : (w : World host) (b : host.Bucket) → R w (record w { content_bucket = b })
  pub queue : (w : World host) (s : Option UploadSession) → R w (record w { queued = s ∷ w.queued })

-- Between a world and how a handler ends.
abbrev pub Within :
    {host : Host} {A : Type 0}
    → (World host → World host → Type 0)
    → World host
    → Outcome host A
    → Type 0
Within R w (done a v) = R w v
Within R w panic = Unit
Within R w exit = Unit

-- The relation holds between the world before and the one after, wherever there is one.
pub record Respects {host : Host} {A : Type 0} (R : World host → World host → Type 0) (m : M host A)
    : Type 0 where
  pub at : (w : World host) → Within R w (m w)

module _ {host : Host} {R : World host → World host → Type 0} (e : Effects host R) where
  module _ {A : Type 0} where
    pub Respects-pure : (a : A) → Respects R (pure a)
    Respects-pure a = record { at = λ w. e.stays w }

    pub Respects-deref : (o : Option A) → Respects R (deref o)
    Respects-deref none = record { at = λ w. tt }
    Respects-deref (some a) = record { at = λ w. e.stays w }

  pub Respects-get_world : Respects R get_world
  Respects-get_world = record { at = λ w. e.stays w }

  pub Respects-load : (p : Ptr) → Respects R (load p)
  Respects-load p = record { at = λ w. e.stays w }

  pub Respects-modify : (p : Ptr) (f : Inode → Inode) → Respects R (modify p f)
  Respects-modify p f = record { at = λ w. e.heap w _ }

  pub Respects-alloc : (i : Inode) → Respects R (alloc i)
  Respects-alloc i = record { at = λ w. e.alloc w _ }

  pub Respects-read_clock : Respects R read_clock
  Respects-read_clock = record { at = λ w. e.clock w }

  pub Respects-draw : Respects R draw
  Respects-draw = record { at = λ w. e.random w }

  pub Respects-send : (r : HttpRequest) → Respects R (send r)
  Respects-send r = record { at = λ w. e.sending w r }

  module _ {A : Type 0} where
    pub Respects-panic : Respects {A = A} R (λ w. panic)
    Respects-panic = record { at = λ w. tt }

    pub Respects-exit : Respects {A = A} R (λ w. exit)
    Respects-exit = record { at = λ w. tt }

    pub Respects-if :
        (b : Bool) (m n : M host A) → Respects R m → Respects R n → Respects R (if b then m else n)
    Respects-if true m n hm hn = hm
    Respects-if false m n hm hn = hn

  module _ {A B : Type 0} where
    pub Respects-option :
        (o : Option A) (m : M host B) (k : A → M host B)
        → Respects R m
        → ((a : A) → Respects R (k a))
        → Respects R (elim o [ none ↦ m | some a ↦ k a ])
    Respects-option none m k hm hk = hm
    Respects-option (some a) m k hm hk = hk a

    pub Respects-result :
        (r : Result A) (m : String → M host B) (k : A → M host B)
        → ((err : String) → Respects R (m err))
        → ((a : A) → Respects R (k a))
        → Respects R (elim r [ fail err ↦ m err | ok a ↦ k a ])
    Respects-result (fail err) m k hm hk = hm err
    Respects-result (ok a) m k hm hk = hk a

  Within-chain :
      {A : Type 0} (u v : World host) (o : Outcome host A) → R u v → Within R v o → Within R u o
  Within-chain u v (done a w) h g = e.chains u v w h g
  Within-chain u v panic h g = tt
  Within-chain u v exit h g = tt

  module _ {A B : Type 0} where
    Within-and_then :
        (u : World host) (o : Outcome host A) (k : A → M host B)
        → Within R u o
        → ((a : A) → Respects R (k a))
        → Within R u (and_then o k)
    Within-and_then u (done a v) k h hk = Within-chain u v (k a v) h ((hk a).at v)
    Within-and_then u panic k h hk = tt
    Within-and_then u exit k h hk = tt

    pub Respects-bind :
        (m : M host A) (k : A → M host B)
        → Respects R m
        → ((a : A) → Respects R (k a))
        → Respects R (m >>= k)
    Respects-bind m k hm hk = record { at = λ w. Within-and_then w (m w) k (hm.at w) hk }

    pub Respects-then :
        (m : M host A) (n : M host B) → Respects R m → Respects R n → Respects R (m >> n)
    Respects-then m n hm hn = Respects-bind m (λ _. n) hm (λ _. hn)

  module _ {B : Type 0} where
    pub Respects-modify_then :
        (p : Ptr) (f : Inode → Inode) (n : M host B) → Respects R n → Respects R (modify p f >> n)
    Respects-modify_then p f n h = Respects-then (modify p f) n (Respects-modify p f) h

pub ruleset effect_rules = (
  Respects-pure, Respects-deref, Respects-get_world, Respects-load, Respects-modify, Respects-alloc,
  Respects-read_clock, Respects-draw, Respects-send, Respects-panic, Respects-exit, Respects-if,
  Respects-bind, Respects-then, Respects-modify_then,
)
