-- ===== src/Start/Offline.antt =====
-- The start of the file system without a network.
use onedriver.Prelude.{
  ◌+◌, String, true, false, none, some, inl, inr, ◌⊎◌, eq_refl, lookup-insert, Option-cases, [],
  ◌∷◌, ◌≡◌, refl, ◌==◌, ==_self, if◌then◌else◌, str_eq, lookup, insert,
}
use onedriver.Item.{Bytes, SerializeableInode, transport_error, fail, ok}
use onedriver.Host.{Host, BucketLaws, ReadsBack}
use onedriver.System.{System}
use onedriver.World.{Ptr, World, done, exit, store}
use onedriver.Fields.{parent_id}
use onedriver.Auth.{is_offline}
use onedriver.Auth.Fresh.{IsFresh, refresh_fresh}
use onedriver.Graph.{request, send_request, retry_once, shared_auth, get_item}
use onedriver.Graph.Attempts.{first_request}
use onedriver.Cache.{get_id, insert_id, stored_inode}
use onedriver.Cache.Lookup.{after_load, get_id_stored, get_id_miss, get_id_hit, get_id_unreadable}
use onedriver.Cache.Stored.{HasRoom, Unique, Result-cases}
use onedriver.Cache.Stored.Root.{get-serialize_list_root}
use onedriver.Cache.Content.{serializeable, serialize_list, serialize_all}
use onedriver.Start.{
  empty_cache, start_cache, find_root, stored_root, go_offline, set_link, set_root,
}

-- A session without a network: the tokens have not expired, and the request for the root ends with
-- an error that the program takes for an offline one.
pub record IsDown (host : Host) (v : World host) : Type 0 where
  pub err : String
  pub token : str_eq v.auth.access_token "" ≡ false
  pub fresh : IsFresh host v
  pub answer :
      host.transport (first_request host "/me/drive/root" "GET" [] v ∷ v.sent) ≡ transport_error err
  pub offline : is_offline err ≡ true

module _ (host : Host) (v : World host) where
  -- The world of a new cache, and what it is once the server was asked for the root.
  abbrev emptied : World host
  emptied = record v { metadata = []; root = ""; delta_link = ""; drive_type = ""; offline = false }

  abbrev asked : World host
  asked = record emptied {
    sent = first_request host "/me/drive/root" "GET" [] v ∷ v.sent;
    readings = v.readings + 1;
  }

  abbrev unreached : World host
  unreached = record asked { offline = true }

  module _ (down : IsDown host v) where
    get_item_down : get_item host "root" shared_auth emptied ≡ done (fail down.err) asked
    unfolding get_item request send_request retry_once
    get_item_down =
        let fresh : IsFresh host emptied = record { unexpired = down.fresh.unexpired } in
        simp (down.token, refresh_fresh host emptied fresh, down.answer)

    rootless :
        (system : System)
        → get_id host "root" unreached ≡ done none unreached
        → start_cache host system v ≡ exit
    unfolding start_cache empty_cache find_root stored_root go_offline
    rootless system none_found = rw get_item_down (rw down.offline (rw none_found refl))

    module _ {bytes : Bytes} (s : SerializeableInode)
        (stored : host.bucket_get v.metadata_bucket "root" ≡ some bytes)
        (parsed : host.unmarshal_inode bytes ≡ ok s) where
      root_loaded :
          get_id host "root" unreached ≡ done (some v.next) (after_load host "root" s unreached)
      unfolding lookup
      root_loaded = get_id_stored host "root" unreached refl stored parsed

      linkless :
          (system : System)
          → host.bucket_get v.delta_bucket "deltaLink" ≡ none
          → start_cache host system v ≡ exit
      unfolding start_cache empty_cache find_root stored_root go_offline after_load
      linkless system unlinked =
          rw get_item_down (rw down.offline (rw root_loaded (rw unlinked refl)))

      -- Once the root came from the database, it is inserted under its own id too.
      restarted : Bytes → World host
      restarted link = record unreached {
        heap =
            store
              (store (λ q. if v.next == q then stored_inode s else v.heap q) v.next
                (record (stored_inode s) { has_cache = true }))
              v.next (record (stored_inode s) { has_cache = true });
        next = v.next + 1;
        metadata = insert s.item.id v.next (("root", v.next) ∷ []);
        root = s.item.id;
        delta_link = host.text_of link;
      }

      start_cache_restarts :
          (system : System) {link : Bytes}
          → host.bucket_get v.delta_bucket "deltaLink" ≡ some link
          → parent_id (stored_inode s) ≡ ""
          → start_cache host system v ≡ done tt (restarted link)
      unfolding start_cache empty_cache find_root stored_root go_offline set_link set_root
          after_load insert_id stored_inode insert restarted
      start_cache_restarts system {link} linked top =
          rw get_item_down (rw down.offline (rw root_loaded (rw linked (simp (==_self, top)))))

-- Without a network, and with the root or the delta link missing in the database, the program exits
-- while it starts its cache.
pub offline_refused :
    (host : Host) (system : System) (v : World host)
    → IsDown host v
    → (host.bucket_get v.metadata_bucket "root" ≡ none)
      ⊎ (host.bucket_get v.delta_bucket "deltaLink" ≡ none)
    → start_cache host system v ≡ exit
unfolding lookup
offline_refused host system v down missing =
    elim (Option-cases (host.bucket_get v.metadata_bucket "root")) [
      | inl unstored ↦
          rootless host v down system (get_id_miss host "root" (unreached host v) refl unstored)
      | inr (bytes, stored) ↦ elim (Result-cases (host.unmarshal_inode bytes)) [
        | inl (s, parsed) ↦ elim missing [
          | inl unstored ↦ cc
          | inr unlinked ↦ linkless host v down s stored parsed system unlinked
        ]
        | inr (err, broken) ↦
            rootless host v down system
              (get_id_unreadable host "root" (unreached host v) refl stored broken)
      ]
    ]

-- SerializeAll of a session that started online, so that it has nothing in memory under the id
-- "root", that has each id once, and its root under its id and without a parent, in a database that
-- takes every value under the key "root" and reads the JSON of the root back as it was; then a
-- start of another session on that database, without a network, and with a delta link in the
-- database. That session is offline, with that link, and has the root under its id as an inode with
-- the item, the children, the subdirectory count and the mode that it had.
pub offline_restart :
    (host : Host) (laws : BucketLaws host) (system : System) (w v : World host) (p : Ptr)
    {link : Bytes}
    → HasRoom host "root"
    → ReadsBack host (serializeable (w.heap p))
    → Unique w.metadata
    → lookup "root" w.metadata ≡ none
    → lookup w.root w.metadata ≡ some p
    → (w.heap p).id ≡ w.root
    → parent_id (w.heap p) ≡ ""
    → IsDown host v
    → host.bucket_get v.delta_bucket "deltaLink" ≡ some link
    → (w' : World host) × (v' : World host) × (serialize_all host w ≡ done tt w')
      × (start_cache host system (record v { metadata_bucket = w'.metadata_bucket }) ≡ done tt v')
      × (v'.offline ≡ true)
      × (v'.delta_link ≡ host.text_of link)
      × (v'.root ≡ w.root)
      × (get_id host w.root v' ≡ done (some v.next) v')
      × (v'.heap v.next ≡ stored_inode (serializeable (w.heap p)))
unfolding serialize_all restarted stored_inode serializeable
offline_restart host laws system w v p {link} room codec unique plain found own top down linked =
    let b = serialize_list host w w.metadata_bucket w.metadata in
    let u : World host = record v { metadata_bucket = b } in
    let down_too : IsDown host u = record {
      err = down.err;
      token = down.token;
      fresh = record { unexpired = down.fresh.unexpired };
      answer = down.answer;
      offline = down.offline;
    } in
    let stored =
      get-serialize_list_root host laws w room w.metadata w.metadata_bucket p unique plain found in
    let s = serializeable (w.heap p) in
    (
      record w { metadata_bucket = b },
      restarted host u down_too s stored codec link,
      refl,
      start_cache_restarts host u down_too s stored codec system linked top,
      refl,
      refl,
      own,
      get_id_hit host w.root (restarted host u down_too s stored codec link)
          (rw own (rw lookup-insert (rw eq_refl refl))),
      rw ==_self refl,
    )
