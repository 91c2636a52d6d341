-- ===== src/Remote/Registered.antt =====
-- RemoteID of a new file whose upload the server accepts: the file has the server's id from then on.
use Prim.Native.String.{◌++◌}
use mathlib.Core.Option
use onedriver.Prelude.{
  ℕ, ◌<◌, String, true, false, none, some, [], ◌∷◌, ◌≡◌, ◌≢◌, refl, sym, ap, subst, ◌∙◌, arith,
  lookup, str_eq, leb, ==_ne,
}
use onedriver.Item.{Bytes, DriveItem, response, ok}
use onedriver.Host.{Host, BucketLaws}
use onedriver.World.{Inode, Ptr, World, done, store}
use onedriver.Auth.Fresh.{IsFresh, after_reading}
use onedriver.Fields.{new_inode, parent_id, is_dir, is_local_id}
use onedriver.Fields.Local.{with_new, new_inode_loose}
use onedriver.Graph.{shared_auth, request, read_response}
use onedriver.Graph.Attempts.{request_once, first_request}
use onedriver.Cache.{holds, ids_of}
use onedriver.Cache.Members.{Distinct}
use onedriver.Cache.Move.{move_id, replace_first}
use onedriver.Cache.Move.Place.{move_id_place}
use onedriver.Cache.Stored.{HasRoom}
use onedriver.Remote.{remote_id, uploaded, read_id, take_id}

-- The request that asks for an id.
abbrev pub id_request : Inode → String
id_request i = "/me/drive/items/" ++ parent_id i ++ ":/" ++ i.name ++ ":/content"

-- A file at `p` that was made here, below the directory at `q`, in a cache that has both.
pub record IsUnregistered {host : Host} (p q : Ptr) (w : World host) : Type 0 where
  pub local : is_local_id (w.heap p).id ≡ true
  pub file : is_dir (w.heap p) ≡ false
  pub cached : (w.heap p).has_cache ≡ true
  pub found : lookup (w.heap p).id w.metadata ≡ some p
  pub parent : lookup (parent_id (w.heap p)) w.metadata ≡ some q
  pub named : str_eq (parent_id (w.heap p)) "" ≡ false
  pub distinct : Distinct (ids_of (w.heap q).children)
  pub in_parent : holds (w.heap p).id (ids_of (w.heap q).children) ≡ true
  pub apart : p ≢ q
  pub old : p < w.next
  pub old_parent : q < w.next

module _ (host : Host) (p q : Ptr) (w : World host) (body : Bytes) where
  -- The request that was answered.
  abbrev pub asked : World host
  asked = record (after_reading w) {
    sent = first_request host (id_request (w.heap p)) "PUT" [] w ∷ w.sent;
  }

  -- The world when the answer was read into a new inode.
  abbrev parsed : Inode → ℕ → DriveItem → World host
  parsed i k item =
      let v = with_new host i k asked in
      record v { heap = store v.heap w.next (record (v.heap w.next) { item = item }) }

  heap_parsed :
      (i : Inode) (k : ℕ) (item : DriveItem) (r : Ptr)
      → r < w.next
      → (parsed i k item).heap r ≡ w.heap r
  heap_parsed i k item r older = let ne = ==_ne w.next r (λ e. omega arith) in rw ne

  module _ (is : IsUnregistered p q w) where
    reads_id :
        (i : Inode) (k : ℕ) (item : DriveItem) (v : World host)
        → host.unmarshal_item body ((with_new host i k asked).heap w.next).item ≡ ok item
        → move_id host (w.heap p).id item.id (parsed i k item) ≡ done none v
        → read_id host p
            (w.heap p).id
            w.next
            (host.unmarshal_item body ((with_new host i k asked).heap w.next).item)
            (with_new host i k asked)
          ≡ done (item.id, none) v
    unfolding read_id take_id
    reads_id i k item v read moved =
        let cached : ((parsed i k item).heap p).has_cache ≡ true =
          rw (heap_parsed i k item p is.old) is.cached in
        rw read (rw cached (rw moved refl))

    asks :
        (i : Inode) (k : ℕ) (item : DriveItem) (v : World host)
        → str_eq w.auth.access_token "" ≡ false
        → request host (id_request (w.heap p)) shared_auth "PUT" [] w ≡ done (ok body) asked
        → new_inode host (w.heap p).name 0o644 none asked ≡ done w.next (with_new host i k asked)
        → read_id host p
            (w.heap p).id
            w.next
            (host.unmarshal_item body ((with_new host i k asked).heap w.next).item)
            (with_new host i k asked)
          ≡ done (item.id, none) v
        → remote_id host p w ≡ done (item.id, none) v
    unfolding remote_id uploaded
    asks i k item v token run made read = simp (is.file, is.local, token, run, made, read)

    answered :
        (status : ℕ)
        → str_eq w.auth.access_token "" ≡ false
        → IsFresh host w
        → host.transport (first_request host (id_request (w.heap p)) "PUT" [] w ∷ w.sent)
          ≡ response status body
        → leb 400 status ≡ false
        → request host (id_request (w.heap p)) shared_auth "PUT" [] w ≡ done (ok body) asked
    unfolding read_response
    answered status token fresh answer below =
        request_once host (id_request (w.heap p)) "PUT" [] w token fresh answer (ground arith)
        ∙ rw below refl

    -- A file that was made here, in memory below a directory in memory that lists it once, among
    -- children without repetitions, while the tokens do not expire, in a database that takes values
    -- under the new id: when the server answers the one request below 400, with an item of a new id,
    -- RemoteID returns that id without an error; the file has it and is found under it, not under
    -- the old one, at the same place among the children; contents that were stored under the old id
    -- are stored under the new one, which keeps its own otherwise, and none under the old one.
    pub remote_id_registers :
        (status : ℕ) (new : String)
        → BucketLaws host
        → HasRoom host new
        → str_eq w.auth.access_token "" ≡ false
        → IsFresh host w
        → host.transport (first_request host (id_request (w.heap p)) "PUT" [] w ∷ w.sent)
          ≡ response status body
        → leb 400 status ≡ false
        → ((d : DriveItem)
            → (item : DriveItem) × (host.unmarshal_item body d ≡ ok item) × (item.id ≡ new))
        → (w.heap p).id ≢ new
        → parent_id (w.heap p) ≢ new
        → (v : World host) × (remote_id host p w ≡ done (new, none) v)
          × (lookup new v.metadata ≡ some p)
          × (lookup (w.heap p).id v.metadata ≡ none)
          × ((v.heap p).id ≡ new)
          × (ids_of (v.heap q).children
              ≡ replace_first (w.heap p).id new (ids_of (w.heap q).children))
          × (host.bucket_get v.content_bucket new
              ≡ Option.or_else
                  (host.bucket_get w.content_bucket (w.heap p).id)
                  (host.bucket_get w.content_bucket new))
          × (host.bucket_get v.content_bucket (w.heap p).id ≡ none)
    remote_id_registers status new laws room token fresh answer below names other below_new =
        let (i, k, made) = new_inode_loose host (w.heap p).name 0o644 asked in
        let (item, read, named) = names ((with_new host i k asked).heap w.next).item in
        let u = parsed i k item in
        let at_p : u.heap p ≡ w.heap p = heap_parsed i k item p is.old in
        let at_q : u.heap q ≡ w.heap q = heap_parsed i k item q is.old_parent in
        let (v, moved, hit, gone, renamed, place, contents, emptied) =
          move_id_place host (w.heap p).id new p q u is.apart other is.found (rw at_p is.parent)
            (rw at_p is.named) (rw at_p below_new) (rw at_q is.distinct) (rw at_q is.in_parent) laws
            room in
        (
          v,
          asks i k item v token (answered status token fresh answer below) made (
                reads_id i k item v read
                  (subst (λ n. move_id host (w.heap p).id n u ≡ done none v) (sym named) moved))
              ∙ ap (λ n. done (n, none) v) named,
          hit,
          gone,
          renamed,
          rw at_q at place,
          contents,
          emptied,
        )
