-- ===== src/Statfs/Effects.antt =====
-- The effects of Statfs.
use onedriver.Host.{Host}
use onedriver.World.{Ptr, World}
use onedriver.World.Effects.{Effects, Respects, effect_rules}
use onedriver.Graph.Effects.{get_drive-Respects}
use onedriver.Statfs.{stat_fs}

module _ {host : Host} {R : World host → World host → Type 0} (e : Effects host R) where
  pub stat_fs-Respects : (p : Ptr) → Respects R (stat_fs host p)
  unfolding stat_fs
  stat_fs-Respects p = search (effect_rules, e, get_drive-Respects) depth 9
