-- ===== src/World/Inversion.antt =====
-- A handler that ends with a value has gone through each of its parts.
use onedriver.Prelude.{Bool, true, false, if◌then◌else◌, ◌≡◌, refl}
use onedriver.Host.{Host}
use onedriver.World.{World, Outcome, M, done, panic, exit, pure, and_then}

pub and_then-eq-done :
    {host : Host} {A B : Type 0} (o : Outcome host A) (k : A → M host B) {b : B} {w : World host}
    → and_then o k ≡ done b w
    → (a : A) × (v : World host) × (o ≡ done a v) × (k a v ≡ done b w)
and_then-eq-done (done a v) k h = (a, v, refl, h)
and_then-eq-done panic k h = cc
and_then-eq-done exit k h = cc

-- Behind a check that panics.
pub checked_only :
    {host : Host} {A : Type 0} (b : Bool) (m : M host A) (w : World host) {a : A} {w' : World host}
    → and_then ((if b then pure tt else (λ v. panic)) w) (λ _. m) ≡ done a w'
    → m w ≡ done a w'
checked_only true m w h = h
checked_only false m w h = cc
