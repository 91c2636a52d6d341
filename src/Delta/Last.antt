-- ===== src/Delta/Last.antt =====
-- Which change of an item counts: the last one.
use onedriver.Prelude.{
  ◌+◌, ◌<◌, String, Option, none, some, List, [], ◌∷◌, ◌++◌, ◌≡◌, ◌≢◌, refl, ◌∙◌, arith, inl, inr,
  if◌then◌else◌, str_eq, lookup, insert, lookup-insert, ==_self, ==_ne, Bool-cases, Option-cases,
}
use onedriver.Item.{DriveItem}
use onedriver.Host.{Host}
use onedriver.World.{Inode, Ptr, World, done, store}
use onedriver.Fields.{bare_inode}
use onedriver.Delta.{keep_last}

-- The last item of a list that has an id.
pub last_item : String → List DriveItem → Option DriveItem
last_item id [] = none
last_item id (item ∷ items) = elim (last_item id items) [
  | some later ↦ some later
  | none ↦ if str_eq item.id id then some item else none
]

-- The last of two lists together.
pub last_item-append :
    (id : String) (xs ys : List DriveItem)
    → last_item id (xs ++ ys)
      ≡ elim (last_item id ys) [ some later ↦ some later | none ↦ last_item id xs ]
unfolding last_item
last_item-append id [] ys = elim (Option-cases (last_item id ys)) [
  | inl none_later ↦ rw none_later refl
  | inr (later, e) ↦ rw e refl
]
last_item-append id (x ∷ xs) ys = elim (Option-cases (last_item id ys)) [
  | inl none_later ↦ rw (last_item-append id xs ys) (rw none_later refl)
  | inr (later, e) ↦ rw (last_item-append id xs ys) (rw e refl)
]

module _ (host : Host) where
  -- The inode of an item, or else the one at an address.
  abbrev pub inode_or : (Ptr → Inode) → Option DriveItem → Option Ptr → Option Inode
  inode_or heap (some item) found = some (bare_inode host item)
  inode_or heap none (some p) = some (heap p)
  inode_or heap none none = none

  -- No address is one that is still to be given out.
  abbrev pub IsOld : World host → List (String × Ptr) → Type 0
  IsOld w deltas = (id : String) (p : Ptr) → lookup id deltas ≡ some p → p < w.next

  abbrev given : DriveItem → World host → World host
  given item w = record w { heap = store w.heap w.next (bare_inode host item); next = w.next + 1 }

  IsOld-given :
      (item : DriveItem) (deltas : List (String × Ptr)) (w : World host)
      → IsOld w deltas
      → IsOld (given item w) (insert item.id w.next deltas)
  IsOld-given item deltas w old id p h = elim (Bool-cases (str_eq item.id id)) [
    | inl hit ↦ let e = (rw lookup-insert at h) in ground arith
    | inr miss ↦ let e = (rw lookup-insert at h) in let g = old id p (rw miss at e) in omega arith
  ]

  inode_or-given :
      (item : DriveItem) (items : List DriveItem) (deltas : List (String × Ptr)) (w : World host)
      (id : String)
      → IsOld w deltas
      → inode_or (given item w).heap (last_item id items) (lookup id (insert item.id w.next deltas))
        ≡ inode_or w.heap (last_item id (item ∷ items)) (lookup id deltas)
  unfolding last_item
  inode_or-given item items deltas w id old = elim (Option-cases (last_item id items)) [
    | inr (later, e) ↦ rw e refl
    | inl none_later ↦ elim (Bool-cases (str_eq item.id id)) [
      | inl hit ↦ rw none_later (rw lookup-insert (rw hit (rw ==_self refl)))
      | inr miss ↦ elim (Option-cases (lookup id deltas)) [
        | inl unknown ↦ rw none_later (rw lookup-insert (rw miss (rw unknown refl)))
        | inr (p, known) ↦
            let lower = old id p known in
            let other : w.next ≢ p = λ e. omega arith in
            rw none_later (rw lookup-insert (rw miss (rw known (rw (==_ne w.next p other) refl))))
      ]
    ]
  ]

  -- What a page of changes leaves alone.
  pub record IsSession (w w' : World host) : Type 0 where
    pub auth : w'.auth ≡ w.auth
    pub sent : w'.sent ≡ w.sent
    pub link : w'.delta_link ≡ w.delta_link

  -- A page is added to the deltas, whose addresses were given out before: each id then stands for a
  -- new inode of the last item of the page with that id, or where it has none for what it stood for
  -- before, which is as it was.
  pub keep_last-last_item :
      (items : List DriveItem) (deltas : List (String × Ptr)) (w : World host)
      → IsOld w deltas
      → (w' : World host) × (deltas' : List (String × Ptr)) × (keep_last host items deltas w
          ≡ done deltas' w')
        × ((id : String)
            → inode_or w'.heap none (lookup id deltas')
              ≡ inode_or w.heap (last_item id items) (lookup id deltas))
        × IsOld w' deltas'
        × IsSession w w'
  unfolding keep_last last_item
  keep_last-last_item [] deltas w old =
      (w, deltas, refl, λ id. refl, old, record { auth = refl; sent = refl; link = refl })
  keep_last-last_item (item ∷ items) deltas w old =
      let (w', deltas', run, means, old', same) =
        keep_last-last_item items (insert item.id w.next deltas) (given item w)
          (IsOld-given item deltas w old) in
      (
        w',
        deltas',
        run,
        λ id. means id ∙ inode_or-given item items deltas w id old,
        old',
        record { auth = same.auth; sent = same.sent; link = same.link },
      )
