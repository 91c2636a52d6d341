-- ===== src/Cache/Stored.antt =====
-- The database keeps what it is given: contents move with their item, and an inode that was written
-- is read back in a later session.
pub mod Root
use onedriver.Prelude.{
  String, Option, none, some, List, [], ◌∷◌, ◌≡◌, ◌≢◌, refl, sym, ap, ◌∙◌, arith, inl, inr, str_eq,
  eq_iff, ◌⊎◌, lookup, subst, Bool-cases,
}
use onedriver.Item.{Bytes, ok, Result, fail}
use onedriver.Host.{Host, BucketLaws, ReadsBack}
use onedriver.World.{World, Ptr, done}
use onedriver.Cache.{get_id}
use onedriver.Cache.Lookup.{get_id_stored, after_load}
use onedriver.Cache.Content.{
  serializeable, put_or_keep, get_content, move_content, serialize, serialize_list, serialize_all,
}

-- A database that takes every value under a key.
abbrev pub HasRoom : Host → String → Type 0
HasRoom host k = (b : host.Bucket) (v : Bytes) → (c : host.Bucket) × (host.bucket_put b k v ≡ ok c)

pub Result-cases :
    {A : Type 0} (r : Result A) → ((a : A) × (r ≡ ok a)) ⊎ ((err : String) × (r ≡ fail err))
Result-cases (ok a) = inl (a, refl)
Result-cases (fail err) = inr (err, refl)

-- No key stands twice.
abbrev pub Unique : List (String × Ptr) → Type 0
Unique [] = Unit
Unique ((k, p) ∷ es) = (lookup k es ≡ none) × Unique es

module _ (host : Host) (laws : BucketLaws host) where
  pub get-put_or_keep_self :
      (b : host.Bucket) (k : String) (v : Bytes)
      → HasRoom host k
      → host.bucket_get (put_or_keep host b k v) k ≡ some v
  unfolding put_or_keep
  get-put_or_keep_self b k v room =
      let (c, put) = room b v in rw (put, put_or_keep) (laws.get-put_self b c k v put)

  pub get-put_or_keep_ne :
      (b : host.Bucket) (j k : String) (v : Bytes)
      → j ≢ k
      → host.bucket_get (put_or_keep host b k v) j ≡ host.bucket_get b j
  unfolding put_or_keep
  get-put_or_keep_ne b j k v h = elim (Result-cases (host.bucket_put b k v)) [
    | inl (c, put) ↦ rw (put, put_or_keep) (laws.get-put_ne b c j k v put h)
    | inr (err, put) ↦ rw (put, put_or_keep) refl
  ]

  -- In a database that takes contents under the new id, contents move there: they are read there as
  -- they were, they are gone from the old id, and those of any other item are left alone.
  pub get_content-move_content :
      (old_id new_id j : String) (w : World host) {content : Bytes}
      → HasRoom host new_id
      → old_id ≢ new_id
      → j ≢ old_id
      → j ≢ new_id
      → host.bucket_get w.content_bucket old_id ≡ some content
      → (w' : World host) × (move_content host old_id new_id w ≡ done none w')
        × (get_content host new_id w' ≡ done (some content) w')
        × (get_content host old_id w' ≡ done none w')
        × (get_content host j w' ≡ done (host.bucket_get w.content_bucket j) w')
  unfolding move_content get_content
  get_content-move_content old_id new_id j w {content} room apart other₁ other₂ h =
      let b = put_or_keep host w.content_bucket new_id content in
      let c = host.bucket_delete b old_id in
      let w' : World host = record w { content_bucket = c } in
      (
        w',
        rw (h, move_content),
        ap (λ (o : Option Bytes). done o w')
            (laws.get-delete_ne b new_id old_id (λ e. apart (sym e))
              ∙ get-put_or_keep_self w.content_bucket new_id content room),
        ap (λ (o : Option Bytes). done o w') (laws.get-delete_self b old_id),
        ap (λ (o : Option Bytes). done o w')
            (laws.get-delete_ne b j old_id other₁
              ∙ get-put_or_keep_ne w.content_bucket j new_id content other₂),
      )

  module _ (w : World host) (id : String) (plain : id ≢ "root") (room : HasRoom host id) where
    -- The bytes of one inode.
    abbrev written : Ptr → Bytes
    written p = host.marshal_inode (serializeable (w.heap p))

    get-serialize_self :
        (b : host.Bucket) (p : Ptr)
        → host.bucket_get (serialize host w b (id, p)) id ≡ some (written p)
    unfolding serialize
    get-serialize_self b p = elim (Bool-cases (str_eq id w.root)) [
      | inl root ↦
          rw root
            (get-put_or_keep_ne _ id "root" _ plain ∙ get-put_or_keep_self b id (written p) room)
      | inr other ↦ rw other (get-put_or_keep_self b id (written p) room)
    ]

    get-serialize_ne :
        (b : host.Bucket) (k : String) (p : Ptr)
        → id ≢ k
        → host.bucket_get (serialize host w b (k, p)) id ≡ host.bucket_get b id
    unfolding serialize
    get-serialize_ne b k p h = elim (Bool-cases (str_eq k w.root)) [
      | inl root ↦
          rw root (get-put_or_keep_ne _ id "root" _ plain ∙ get-put_or_keep_ne b id k (written p) h)
      | inr other ↦ rw other (get-put_or_keep_ne b id k (written p) h)
    ]

    get-serialize_list_absent :
        (es : List (String × Ptr)) (b : host.Bucket)
        → lookup id es ≡ none
        → host.bucket_get (serialize_list host w b es) id ≡ host.bucket_get b id
    unfolding serialize_list lookup
    get-serialize_list_absent [] b h = refl
    get-serialize_list_absent ((k, p) ∷ es) b h =
        get-serialize_list_absent es (serialize host w b (k, p)) (ground arith)
        ∙ get-serialize_ne b k p (λ e. ground (arith, eq_iff k id, sym e))

    get-serialize_list :
        (es : List (String × Ptr)) (b : host.Bucket) (p : Ptr)
        → Unique es
        → lookup id es ≡ some p
        → host.bucket_get (serialize_list host w b es) id ≡ some (written p)
    unfolding serialize_list lookup
    get-serialize_list [] b p u h = cc
    get-serialize_list ((k, q) ∷ es) b p u h = elim (Bool-cases (str_eq k id)) [
      | inl hit ↦
          let same : k ≡ id = (eq_iff k id).0 hit in
          let found : q ≡ p = ground arith in
          get-serialize_list_absent es (serialize host w b (k, q))
            (subst (λ i. lookup i es ≡ none) same u.0)
          ∙ subst (λ i. host.bucket_get (serialize host w b (i, q)) id ≡ some (written q))
              (sym same) (get-serialize_self b q)
          ∙ ap (λ (r : Ptr). some (written r)) found
      | inr miss ↦ get-serialize_list es (serialize host w b (k, q)) p u.1 (rw miss at h)
    ]

    -- In a database that takes every value under this id, and where the JSON of this inode is read
    -- back as it was, what SerializeAll wrote of an item other than "root", GetID reads back in a
    -- session that has the same database and does not have the item in memory: a new inode with the
    -- item, the children, the subdirectory count and the mode of the old one.
    pub get_id-serialize_all :
        (p : Ptr) (v : World host)
        → ReadsBack host (serializeable (w.heap p))
        → Unique w.metadata
        → lookup id w.metadata ≡ some p
        → lookup id v.metadata ≡ none
        → (w' : World host) × (serialize_all host w ≡ done tt w')
          × (let v' = record v { metadata_bucket = w'.metadata_bucket } in
              get_id host id v'
              ≡ done (some v.next) (after_load host id (serializeable (w.heap p)) v'))
    unfolding serialize_all
    get_id-serialize_all p v codec unique found fresh =
        let b = serialize_list host w w.metadata_bucket w.metadata in
        (
          record w { metadata_bucket = b },
          refl,
          get_id_stored host id (record v { metadata_bucket = b }) fresh
              (get-serialize_list w.metadata w.metadata_bucket p unique found) codec,
        )
