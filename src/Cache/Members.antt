-- ===== src/Cache/Members.antt =====
-- The ids of a directory's children as a list without repetitions.
use onedriver.Prelude.{
  String, true, false, List, [], ◌∷◌, ◌++◌, ◌≡◌, ◌≢◌, refl, arith, if◌then◌else◌, str_eq, eq_iff,
}
use onedriver.Cache.{holds, remove_first}

abbrev pub Distinct : List String → Type 0
Distinct [] = Unit
Distinct (id ∷ ids) = (holds id ids ≡ false) × Distinct ids

pub holds-append :
    (j id : String) (ids : List String)
    → holds j (ids ++ id ∷ []) ≡ (if str_eq id j then true else holds j ids)
unfolding holds
holds-append j id [] = refl
holds-append j id (child ∷ ids) = ground (arith, holds-append j id ids)

pub holds-single : (j id : String) → id ≢ j → holds j (id ∷ []) ≡ false
unfolding holds
holds-single j id apart = ground (arith, eq_iff id j)

pub append-Distinct :
    (id : String) (ids : List String)
    → holds id ids ≡ false
    → Distinct ids
    → Distinct (ids ++ id ∷ [])
unfolding holds
append-Distinct id [] h d = (refl, tt)
append-Distinct id (child ∷ ids) h d = (
  rw holds-append (ground (arith, eq_iff id child, eq_iff child id)),
  append-Distinct id ids (ground arith) d.1,
)

pub holds-remove_first_ne :
    (j id : String) (ids : List String)
    → str_eq id j ≡ false
    → holds j (remove_first id ids) ≡ holds j ids
unfolding holds remove_first
holds-remove_first_ne j id [] h = refl
holds-remove_first_ne j id (child ∷ ids) h =
    ground (arith, holds-remove_first_ne j id ids, eq_iff child id, eq_iff child j, eq_iff id j)

-- With no repetitions the first occurrence is the only one.
pub holds-remove_first_self :
    (id : String) (ids : List String) → Distinct ids → holds id (remove_first id ids) ≡ false
unfolding holds remove_first
holds-remove_first_self id [] d = refl
holds-remove_first_self id (child ∷ ids) d =
    ground (arith, holds-remove_first_self id ids d.1, eq_iff child id)

pub remove_first-Distinct :
    (id : String) (ids : List String) → Distinct ids → Distinct (remove_first id ids)
unfolding holds remove_first
remove_first-Distinct id [] d = tt
remove_first-Distinct id (child ∷ ids) d = ground (
  arith,
  remove_first-Distinct id ids d.1,
  holds-remove_first_ne child id ids,
  eq_iff child id,
  eq_iff id child,
)
