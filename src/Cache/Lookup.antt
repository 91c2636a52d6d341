-- ===== src/Cache/Lookup.antt =====
-- GetID: what it finds, and what it leaves alone.
use onedriver.Prelude.{
  ◌+◌, ◌<◌, String, Option, none, some, ◌≡◌, refl, inl, inr, arith, if◌then◌else◌, eq_iff, lookup,
  insert, lookup-insert, Option-cases, ◌==◌,
}
use onedriver.Item.{Bytes, Result, ok, fail, SerializeableInode}
use onedriver.Host.{Host}
use onedriver.World.{Ptr, World, done}
use onedriver.Cache.{get_id, load_stored, keep_stored, stored_inode}

module _ (host : Host) where
  -- The world after an inode came from the database.
  unfoldable pub after_load : String → SerializeableInode → World host → World host
  after_load id s w = record w {
    heap = λ q. if w.next == q then stored_inode s else w.heap q;
    next = w.next + 1;
    metadata = insert id w.next w.metadata;
  }

  pub get_id_hit :
      (id : String) (w : World host) {p : Ptr}
      → lookup id w.metadata ≡ some p
      → get_id host id w ≡ done (some p) w
  unfolding get_id
  get_id_hit id w h = rw (h, get_id)

  pub get_id_miss :
      (id : String) (w : World host)
      → lookup id w.metadata ≡ none
      → host.bucket_get w.metadata_bucket id ≡ none
      → get_id host id w ≡ done none w
  unfolding get_id load_stored
  get_id_miss id w h k = rw (h, get_id) (rw k)

  pub get_id_stored :
      (id : String) (w : World host) {bytes : Bytes} {s : SerializeableInode}
      → lookup id w.metadata ≡ none
      → host.bucket_get w.metadata_bucket id ≡ some bytes
      → host.unmarshal_inode bytes ≡ ok s
      → get_id host id w ≡ done (some w.next) (after_load id s w)
  unfolding get_id load_stored keep_stored after_load
  get_id_stored id w h k u = rw (h, get_id) (rw k (rw (u, keep_stored)))

  pub get_id_unreadable :
      (id : String) (w : World host) {bytes : Bytes} {err : String}
      → lookup id w.metadata ≡ none
      → host.bucket_get w.metadata_bucket id ≡ some bytes
      → host.unmarshal_inode bytes ≡ fail err
      → get_id host id w ≡ done none w
  unfolding get_id load_stored keep_stored
  get_id_unreadable id w h k u = rw (h, get_id) (rw k (rw (u, keep_stored) refl))

  -- What GetID leaves of a world: the inodes that were there, and what the cache maps.
  pub record Keeps (w w' : World host) : Type 0 where
    pub heap : (q : Ptr) → q < w.next → w'.heap q ≡ w.heap q
    pub metadata :
        (j : String) (p : Ptr) → lookup j w.metadata ≡ some p → lookup j w'.metadata ≡ some p
    pub root : w'.root ≡ w.root

  pub Keeps-refl : (w : World host) → Keeps w w
  Keeps-refl w = record { heap = λ q h. refl; metadata = λ j p h. h; root = refl }

  Keeps-after_load :
      (id : String) (s : SerializeableInode) (w : World host)
      → lookup id w.metadata ≡ none
      → Keeps w (after_load id s w)
  unfolding after_load
  Keeps-after_load id s w free = record {
    heap = λ q h. ground arith;
    metadata = λ j p h. rw lookup-insert (ground (arith, eq_iff id j));
    root = refl;
  }

  keep_stored-Keeps :
      (id : String) (parsed : Result SerializeableInode) (w : World host)
      → lookup id w.metadata ≡ none
      → (o : Option Ptr) × (w' : World host) × (keep_stored host id parsed w ≡ done o w')
        × Keeps w w'
  unfolding keep_stored after_load
  keep_stored-Keeps id (fail err) w free = (none, w, refl, Keeps-refl w)
  keep_stored-Keeps id (ok s) w free =
      (some w.next, after_load id s w, refl, Keeps-after_load id s w free)

  load_stored-Keeps :
      (id : String) (stored : Option Bytes) (w : World host)
      → lookup id w.metadata ≡ none
      → (o : Option Ptr) × (w' : World host) × (load_stored host id stored w ≡ done o w')
        × Keeps w w'
  unfolding load_stored
  load_stored-Keeps id none w free = (none, w, refl, Keeps-refl w)
  load_stored-Keeps id (some bytes) w free =
      keep_stored-Keeps id (host.unmarshal_inode bytes) w free

  -- GetID always ends, and leaves all that was there.
  pub get_id-Keeps :
      (id : String) (w : World host)
      → (o : Option Ptr) × (w' : World host) × (get_id host id w ≡ done o w') × Keeps w w'
  unfolding get_id
  get_id-Keeps id w = elim (Option-cases (lookup id w.metadata)) [
    | inr (p, hit) ↦ (some p, w, rw (hit, get_id), Keeps-refl w)
    | inl free ↦
        let (o, w', run, keeps) =
          load_stored-Keeps id (host.bucket_get w.metadata_bucket id) w free in
        (o, w', rw (free, get_id) run, keeps)
  ]
