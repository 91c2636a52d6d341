-- ===== src/Cache/Stored/Root.antt =====
-- The root in the database, under its own key.
use onedriver.Prelude.{
  String, true, false, none, some, List, [], ◌∷◌, ◌≡◌, ◌≢◌, refl, sym, ap, ◌∙◌, arith, inl, inr,
  str_eq, eq_iff, lookup, subst, Bool-cases,
}
use onedriver.Host.{Host, BucketLaws}
use onedriver.World.{World, Ptr}
use onedriver.Cache.Content.{serializeable, serialize, serialize_list}
use onedriver.Cache.Stored.{HasRoom, Unique, get-put_or_keep_self, get-put_or_keep_ne}

module _ (host : Host) (laws : BucketLaws host) (w : World host) (room : HasRoom host "root") where
  get-serialize_root :
      (b : host.Bucket) (k : String) (p : Ptr)
      → str_eq k w.root ≡ true
      → host.bucket_get (serialize host w b (k, p)) "root"
        ≡ some (host.marshal_inode (serializeable (w.heap p)))
  unfolding serialize
  get-serialize_root b k p h =
      rw h (
        get-put_or_keep_self host laws _ "root" (host.marshal_inode (serializeable (w.heap p)))
          room)

  get-serialize_below :
      (b : host.Bucket) (k : String) (p : Ptr)
      → str_eq k w.root ≡ false
      → k ≢ "root"
      → host.bucket_get (serialize host w b (k, p)) "root" ≡ host.bucket_get b "root"
  unfolding serialize
  get-serialize_below b k p h plain = rw h (
      get-put_or_keep_ne host laws b "root" k (host.marshal_inode (serializeable (w.heap p)))
        (λ e. plain (sym e)))

  -- Entries of other ids leave it alone.
  get-serialize_list_below :
      (es : List (String × Ptr)) (b : host.Bucket)
      → lookup w.root es ≡ none
      → lookup "root" es ≡ none
      → host.bucket_get (serialize_list host w b es) "root" ≡ host.bucket_get b "root"
  unfolding serialize_list lookup
  get-serialize_list_below [] b h g = refl
  get-serialize_list_below ((k, p) ∷ es) b h g =
      get-serialize_list_below es (serialize host w b (k, p)) (ground arith) (ground arith)
      ∙ get-serialize_below b k p (ground arith) (λ e. ground (arith, eq_iff k "root"))

  -- In a session that has nothing under the id "root", the entry of the root is written there.
  pub get-serialize_list_root :
      (es : List (String × Ptr)) (b : host.Bucket) (p : Ptr)
      → Unique es
      → lookup "root" es ≡ none
      → lookup w.root es ≡ some p
      → host.bucket_get (serialize_list host w b es) "root"
        ≡ some (host.marshal_inode (serializeable (w.heap p)))
  unfolding serialize_list lookup
  get-serialize_list_root [] b p u g h = cc
  get-serialize_list_root ((k, q) ∷ es) b p u g h = elim (Bool-cases (str_eq k w.root)) [
    | inl hit ↦
        let same : k ≡ w.root = (eq_iff k w.root).0 hit in
        let found : q ≡ p = ground arith in
        get-serialize_list_below es (serialize host w b (k, q))
          (subst (λ i. lookup i es ≡ none) same u.0) (ground arith)
        ∙ get-serialize_root b k q hit
        ∙ ap (λ (r : Ptr). some (host.marshal_inode (serializeable (w.heap r)))) found
    | inr miss ↦
        get-serialize_list_root es (serialize host w b (k, q)) p u.1 (ground arith) (rw miss at h)
  ]
