-- ===== src/Fields/Effects.antt =====
-- The effects of a new inode.
use Prim.Native.String.{◌++◌}
use onedriver.Prelude.{ℕ, ◌%◌, zero, suc, String, Option, none, some}
use onedriver.Host.{Host}
use onedriver.World.{Ptr}
use onedriver.World.{World, draw}
use onedriver.World.Effects.{
  Effects, Respects, Respects-bind, Respects-pure, Respects-draw, effect_rules,
}
use onedriver.Fields.{nth, charset, rand_string, local_id, item_parent, new_inode}

module _ {host : Host} {R : World host → World host → Type 0} (e : Effects host R) where
  rand_string-Respects : (n : ℕ) → Respects R (rand_string host n)
  unfolding rand_string
  rand_string-Respects zero = search (effect_rules, e)
  rand_string-Respects (suc n) = Respects-bind e draw _ (Respects-draw e) (λ r.
      Respects-bind e (rand_string host n) _ (rand_string-Respects n)
        (λ rest. Respects-pure e (nth charset (r % 62) ++ rest)))

  local_id-Respects : Respects R (local_id host)
  unfolding local_id
  local_id-Respects = search (effect_rules, e, rand_string-Respects)

  item_parent-Respects : (parent : Option Ptr) → Respects R (item_parent host parent)
  unfolding item_parent
  item_parent-Respects none = search (effect_rules, e)
  item_parent-Respects (some p) = search (effect_rules, e)

  pub new_inode-Respects :
      (name : String) (mode : ℕ) (parent : Option Ptr)
      → Respects R (new_inode host name mode parent)
  unfolding new_inode
  new_inode-Respects name mode parent =
      search (effect_rules, e, local_id-Respects, item_parent-Respects)
