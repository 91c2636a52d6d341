-- ===== src/World/Mode.antt =====
-- The part of a world that only the poll for changes and the start touch, and views of it.
use onedriver.Prelude.{String, Bool, true, false, if◌then◌else◌, ◌≡◌, refl, subst}
use onedriver.Item.{Result, ok, fail}
use onedriver.Host.{Host}
use onedriver.World.{World, M, Outcome, done, panic, exit, and_then, ◌>>=◌}
use onedriver.World.Effects.{Effects, Respects, Within}

-- Whether the file system is offline, its root, the link of the next poll, and the metadata
-- and the link in the database.
pub record Mode (host : Host) : Type 0 where
  pub offline : Bool
  pub root : String
  pub delta_link : String
  pub metadata_bucket : host.Bucket
  pub delta_bucket : host.Bucket

module _ {host : Host} where
  abbrev pub mode : World host → Mode host
  mode w = record {
    offline = w.offline;
    root = w.root;
    delta_link = w.delta_link;
    metadata_bucket = w.metadata_bucket;
    delta_bucket = w.delta_bucket;
  }

  -- Two worlds with the same mode, as far as a view of it goes.
  abbrev pub Same : {A : Type 0} → (Mode host → A) → World host → World host → Type 0
  Same view v w = view (mode w) ≡ view (mode v)

  pub Same-Effects : {A : Type 0} (view : Mode host → A) → Effects host (Same view)
  Same-Effects view = record {
    stays = λ w. refl;
    chains = λ u v w h g. cc;
    heap = λ w heap. refl;
    alloc = λ w heap. refl;
    metadata = λ w entries. refl;
    clock = λ w. refl;
    random = λ w. refl;
    sending = λ w r. refl;
    auth = λ w a. refl;
    token_file = λ w files. refl;
    drive_type = λ w t. refl;
    content = λ w b. refl;
    queue = λ w s. refl;
  }

  module _ {A : Type 0} where
    -- What a relation that is respected says of a run that ends with a value.
    pub at-done :
        (R : World host → World host → Type 0) (m : M host A) (v : World host) {a : A}
        {w : World host}
        → Respects R m
        → m v ≡ done a w
        → R v w
    at-done R m v h run = subst (Within R v) run (h.at v)

    -- A property of the value and of the world at the end.
    abbrev pub Holds : (A → World host → Type 0) → Outcome host A → Type 0
    Holds Q (done a w) = Q a w
    Holds Q panic = Unit
    Holds Q exit = Unit

    pub record Ends (Q : A → World host → Type 0) (m : M host A) : Type 0 where
      pub at : (w : World host) → Holds Q (m w)

    pub Ends-done :
        (Q : A → World host → Type 0) (m : M host A) (v : World host) {a : A} {w : World host}
        → Ends Q m
        → m v ≡ done a w
        → Q a w
    Ends-done Q m v h run = subst (Holds Q) run (h.at v)

  module _ {A B : Type 0} (Q : B → World host → Type 0) where
    Holds-and_then :
        (o : Outcome host A) (k : A → M host B) → ((a : A) → Ends Q (k a)) → Holds Q (and_then o k)
    Holds-and_then (done a w) k h = (h a).at w
    Holds-and_then panic k h = tt
    Holds-and_then exit k h = tt

    pub Ends-bind : (m : M host A) (k : A → M host B) → ((a : A) → Ends Q (k a)) → Ends Q (m >>= k)
    Ends-bind m k h = record { at = λ w. Holds-and_then (m w) k h }

    pub Ends-result :
        (r : Result A) (m : String → M host B) (k : A → M host B)
        → ((err : String) → Ends Q (m err))
        → ((a : A) → Ends Q (k a))
        → Ends Q (elim r [ fail err ↦ m err | ok a ↦ k a ])
    Ends-result (fail err) m k hm hk = hm err
    Ends-result (ok a) m k hm hk = hk a

  pub Ends-if :
      {A : Type 0} (Q : A → World host → Type 0) (b : Bool) (m n : M host A)
      → Ends Q m
      → Ends Q n
      → Ends Q (if b then m else n)
  Ends-if Q true m n hm hn = hm
  Ends-if Q false m n hm hn = hn
