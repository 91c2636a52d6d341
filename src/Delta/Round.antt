-- ===== src/Delta/Round.antt =====
-- A round of new items in which each folder comes before what is in it: all of them arrive.
use onedriver.Prelude.{
  String, true, false, none, some, List, [], ◌∷◌, ◌≡◌, ◌≢◌, refl, sym, ap, subst, ◌∙◌, inl, inr,
  str_eq, eq_iff, eq_refl, lookup, insert, lookup-insert, Bool-cases,
}
use onedriver.Item.{DriveItemParent}
use onedriver.Host.{Host}
use onedriver.World.{Inode, Ptr, World, done}
use onedriver.Fields.{parent_id}
use onedriver.Cache.{holds, ids_of}
use onedriver.Delta.{apply_delta, apply_all}
use onedriver.Delta.Entered.{Entered, apply_delta_enters}

-- None of the later deltas is one of these two inodes.
abbrev pub Aside : Ptr → Ptr → List (String × Ptr) → Type 0
Aside d q [] = Unit
Aside d q ((k, e) ∷ deltas) = (e ≢ d) × (e ≢ q) × Aside d q deltas

module _ (host : Host) (heap : Ptr → Inode) (bucket : host.Bucket) where
  -- A new item at `d`, below the directory at `q`, for a cache with these entries.
  pub record Arriving (d q : Ptr) (m : List (String × Ptr)) : Type 0 where
    pub reference : DriveItemParent
    pub referenced : (heap d).parent ≡ some reference
    pub alive : (heap d).deleted ≡ none
    pub unknown : lookup (heap d).id m ≡ none
    pub unstored : host.bucket_get bucket (heap d).id ≡ none
    pub above : lookup (parent_id (heap d)) m ≡ some q
    pub named : str_eq (parent_id (heap d)) "" ≡ false
    pub apart : d ≢ q

  -- Each item arrives below a directory that the cache has by then.
  abbrev pub InOrder : List (String × Ptr) → List (String × Ptr) → Type 0
  InOrder [] m = Unit
  InOrder ((k, d) ∷ deltas) m =
      ((q : Ptr) × Arriving d q m × Aside d q deltas) × InOrder deltas (insert (heap d).id d m)

  -- Each item is in the cache, and its parent there lists it.
  abbrev pub AllThere : List (String × Ptr) → World host → Type 0
  AllThere [] v = Unit
  AllThere ((k, d) ∷ deltas) v =
      ((lookup (heap d).id v.metadata ≡ some d)
        × ((q : Ptr) × (lookup (parent_id (heap d)) v.metadata ≡ some q)
            × (holds (heap d).id (ids_of (v.heap q).children) ≡ true)))
      × AllThere deltas v

  -- The deltas that are left are as they were.
  abbrev Untouched : List (String × Ptr) → World host → Type 0
  Untouched [] u = Unit
  Untouched ((k, d) ∷ deltas) u = (u.heap d ≡ heap d) × Untouched deltas u

  -- What the cache has stays there.
  record Grows (u v : World host) : Type 0 where
    entries : (j : String) (p : Ptr) → lookup j u.metadata ≡ some p → lookup j v.metadata ≡ some p
    children :
        (r : Ptr) (j : String)
        → holds j (ids_of (u.heap r).children) ≡ true
        → holds j (ids_of (v.heap r).children) ≡ true

  Untouched-Entered :
      {d q : Ptr} {u v : World host} (deltas : List (String × Ptr))
      → Entered d q u v
      → Aside d q deltas
      → Untouched deltas u
      → Untouched deltas v
  Untouched-Entered [] step aside same = tt
  Untouched-Entered ((k, e) ∷ deltas) step aside same =
      (step.elsewhere e aside.0 aside.1 ∙ same.0, Untouched-Entered deltas step aside.2 same.1)

  Entered-Grows :
      {d q : Ptr} {u v : World host}
      → Entered d q u v
      → lookup (u.heap d).id u.metadata ≡ none
      → Grows u v
  Entered-Grows {d} {q} {u} {v} step unknown = record {
    entries = λ j p h. rw step.metadata (
        rw lookup-insert (elim (Bool-cases (str_eq (u.heap d).id j)) [
          | inl hit ↦
              let same = (eq_iff (u.heap d).id j).0 hit in
              let no : lookup j u.metadata ≡ none =
                subst (λ i. lookup i u.metadata ≡ none) same unknown in
              cc
          | inr miss ↦ rw miss h
        ]));
    children = step.grows;
  }

  -- One item of the round.
  arrives :
      (d q : Ptr) (u : World host)
      → u.heap d ≡ heap d
      → u.metadata_bucket ≡ bucket
      → Arriving d q u.metadata
      → (v : World host) × (apply_delta host d u ≡ done none v) × Entered d q u v
  arrives d q u same stored item =
      apply_delta_enters host d q (parent_id (heap d)) u
        (record {
          reference = item.reference;
          referenced = rw same item.referenced;
          place = rw same refl;
          alive = rw same item.alive;
          unknown = rw same item.unknown;
          unstored = rw (same, stored) item.unstored;
        })
        item.above item.named item.apart

  arrive_all :
      (deltas : List (String × Ptr)) (u : World host)
      → Untouched deltas u
      → u.metadata_bucket ≡ bucket
      → InOrder deltas u.metadata
      → (v : World host) × (apply_all host deltas u ≡ done tt v) × AllThere deltas v × Grows u v
  unfolding apply_all
  arrive_all [] u same stored order =
      (u, refl, tt, record { entries = λ j p h. h; children = λ r j h. h })
  arrive_all ((k, d) ∷ deltas) u same stored ((q, item, aside), order) =
      let (u', run, step) = arrives d q u same.0 stored item in
      let id_same : (u.heap d).id ≡ (heap d).id = ap (λ (i : Inode). i.id) same.0 in
      let added : u'.metadata ≡ insert (heap d).id d u.metadata =
        step.metadata ∙ ap (λ id. insert id d u.metadata) id_same in
      let (v, rest, there, grows) =
        arrive_all deltas u' (Untouched-Entered deltas step aside same.1) (step.bucket ∙ stored)
          (subst (λ m. InOrder deltas m) (sym added) order) in
      let first = Entered-Grows step (rw id_same item.unknown) in
      let here : lookup (heap d).id u'.metadata ≡ some d =
        rw added (rw lookup-insert (rw eq_refl refl)) in
      (
        v,
        rw run rest,
        (
          (
            grows.entries (heap d).id d here,
            (
              q,
              grows.entries (parent_id (heap d)) q
                  (first.entries (parent_id (heap d)) q item.above),
              grows.children q (heap d).id (rw id_same at step.in_parent),
            ),
          ),
          there,
        ),
        record {
          entries = λ j p h. grows.entries j p (first.entries j p h);
          children = λ r j h. grows.children r j (first.children r j h);
        },
      )

  Untouched-refl :
      (deltas : List (String × Ptr)) (u : World host) → u.heap ≡ heap → Untouched deltas u
  Untouched-refl [] u same = tt
  Untouched-refl ((k, d) ∷ deltas) u same = (ap (λ h. h d) same, Untouched-refl deltas u same)

-- The deltas of a round are items that are new, and each arrives below a directory that the cache
-- has or that came before it: the loop over the deltas ends with all of them in the cache and each
-- listed by its parent there, and an item that the cache had is still in it.
pub apply_all_creates :
    (host : Host) (w : World host) (deltas : List (String × Ptr)) (j : String) (p : Ptr)
    → InOrder host w.heap w.metadata_bucket deltas w.metadata
    → lookup j w.metadata ≡ some p
    → (v : World host) × (apply_all host deltas w ≡ done tt v)
      × AllThere host w.heap w.metadata_bucket deltas v
      × (lookup j v.metadata ≡ some p)
apply_all_creates host w deltas j p order known =
    let heap = w.heap in
    let bucket = w.metadata_bucket in
    let (v, run, there, grows) =
      arrive_all host heap bucket deltas w (Untouched-refl host heap bucket deltas w refl) refl
        order in
    (v, run, there, grows.entries j p known)
