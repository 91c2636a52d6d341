-- ===== src/Auth/Fresh.antt =====
-- Tokens that have not expired.
use onedriver.Prelude.{ℕ, ◌+◌, ◌<◌, ◌≡◌, false, arith, leb}
use onedriver.Host.{Host}
use onedriver.World.{World, done}
use onedriver.Auth.{refresh}

-- No reading of the clock reaches the end of the tokens.
pub record IsFresh (host : Host) (w : World host) : Type 0 where
  pub unexpired : (n : ℕ) → host.now n < w.auth.expires_at

-- The world after the clock was read.
abbrev pub after_reading : {host : Host} → World host → World host
after_reading w = record w { readings = w.readings + 1 }

-- Tokens that have not expired are not renewed: only the clock is read.
pub refresh_fresh :
    (host : Host) (w : World host) → IsFresh host w → refresh host w ≡ done tt (after_reading w)
unfolding refresh
refresh_fresh host w h =
    let late : leb w.auth.expires_at (host.now w.readings) ≡ false =
      ground (arith, h.unexpired w.readings) in
    rw late
