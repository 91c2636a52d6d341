-- ===== src/File/Forgotten.antt =====
-- Fsync of a new file that cannot be uploaded, and what is left for the next one to do.
use onedriver.Prelude.{
  String, true, false, none, some, [], ◌∷◌, ◌≡◌, refl, str_eq, contains, ==_self, ◌+◌, ◌∙◌, subst,
  ap, Option,
}
use onedriver.Item.{fail, transport_error}
use onedriver.Host.{Host}
use onedriver.World.{Inode, World, Ptr, Slice, Outcome, done, pure, and_then, store}
use onedriver.Auth.Fresh.{IsFresh}
use onedriver.Fields.{is_dir, get_mode, is_local_id}
use onedriver.Graph.{shared_auth, request}
use onedriver.Graph.Attempts.{request_down, first_request}
use onedriver.Remote.Registered.{id_request}
use onedriver.Remote.{get_drive_type, remote_id}
use onedriver.Upload.{queue_upload, new_upload_session}
use onedriver.Open.{success, eremoteio}
use onedriver.File.{upload_errno, new_hashes, sync_changes, fsync, flush, store_content}
use onedriver.File.Saved.{need_cache_lem}
use onedriver.Cache.Content.{insert_content}

-- A file that was made here and written to, and that the server does not have yet.
pub record IsNew (i : Inode) (s : Slice) : Type 0 where
  pub content : i.content ≡ some s
  pub has_changes : i.has_changes ≡ true
  pub has_cache : i.has_cache ≡ true
  pub local : is_local_id i.id ≡ true
  pub file : is_dir i ≡ false

-- A new file for whose id the request fails is not queued.
queue_upload_fails :
    (host : Host) (p : Ptr) (v v' : World host) {err : String}
    → is_dir (v.heap p) ≡ false
    → is_local_id (v.heap p).id ≡ true
    → str_eq v.auth.access_token "" ≡ false
    → request host (id_request (v.heap p)) shared_auth "PUT" [] v ≡ done (fail err) v'
    → contains err "nameAlreadyExists" ≡ false
    → queue_upload host p v ≡ done (some err) v'
unfolding queue_upload new_upload_session remote_id
queue_upload_fails host p v v' file local token asked other =
    simp (file, local, token, asked, other)

-- Contents that the database refuses leave the memory all the same.
store_content_refused :
    (host : Host) (p : Ptr) (s : Slice) (v : World host) {err : String}
    → (v.heap p).has_cache ≡ true
    → host.bucket_put v.content_bucket (v.heap p).id s.elems ≡ fail err
    → store_content host p (some s) v
      ≡ done tt (record v { heap = store v.heap p (record (v.heap p) { content = none }) })
unfolding store_content insert_content
store_content_refused host p s v cache put =
    rw (need_cache_lem host p v cache) (rw (put, insert_content))

module _ (host : Host) (p : Ptr) (w : World host) (s : Slice) where
  -- What Fsync does to the heap before it asks, in two steps.
  abbrev cleared : Ptr → Inode
  cleared = store w.heap p (record (w.heap p) { has_changes = false })

  abbrev hashed : Ptr → Inode
  hashed = store cleared p (record (cleared p) {
    item = record (cleared p).item { file = some (new_hashes host w.drive_type s.elems) };
  })

  hashed_lem : hashed p ≡ record (w.heap p) {
    item = record (w.heap p).item { file = some (new_hashes host w.drive_type s.elems) };
    has_changes = false;
  }
  hashed_lem = rw ==_self

  abbrev asking : World host
  asking = record w { heap = hashed }

  abbrev pub forgotten : World host
  forgotten = record w {
    heap = hashed;
    sent = first_request host (id_request (w.heap p)) "PUT" [] w ∷ w.sent;
    readings = w.readings + 1;
  }

  module _ (h : IsNew (w.heap p) s) (kind : str_eq w.drive_type "" ≡ false) where
    fsync_queues :
        fsync host p w ≡ and_then (queue_upload host p asking) (λ err. pure (upload_errno host err))
    unfolding fsync sync_changes get_drive_type upload_errno
    fsync_queues = simp (h.has_changes, ==_self, h.has_cache, kind, h.content)

    fsync_asks :
        {err : String}
        → str_eq w.auth.access_token "" ≡ false
        → IsFresh host w
        → host.transport (first_request host (id_request (w.heap p)) "PUT" [] w ∷ w.sent)
          ≡ transport_error err
        → request host (id_request (w.heap p)) shared_auth "PUT" [] asking
          ≡ done (fail err) forgotten
    fsync_asks token fresh down =
        let again : IsFresh host asking = record { unexpired = fresh.unexpired } in
        request_down host (id_request (w.heap p)) "PUT" [] asking token again down

    fsync_fails :
        {err : String}
        → request host (id_request (w.heap p)) shared_auth "PUT" [] asking
          ≡ done (fail err) forgotten
        → str_eq w.auth.access_token "" ≡ false
        → contains err "nameAlreadyExists" ≡ false
        → fsync host p w ≡ done eremoteio forgotten
    unfolding upload_errno is_dir get_mode
    fsync_fails {err} asked token other =
        let same : id_request (w.heap p) ≡ id_request (hashed p) = rw hashed_lem in
        fsync_queues
        ∙ rw (
            queue_upload_fails host p asking forgotten (rw hashed_lem h.file)
              (rw hashed_lem h.local) token
              (subst (λ r. request host r shared_auth "PUT" [] asking ≡ done (fail err) forgotten)
                same asked)
              other)

    -- A file that was made here and written to, on a drive of a known type and with tokens that
    -- have not expired: when the request for its id fails below HTTP, Fsync fails and queues
    -- nothing, and the next Fsync reports success without a request, while the contents are still
    -- in memory.
    pub fsync_forgets :
        {err : String}
        → str_eq w.auth.access_token "" ≡ false
        → IsFresh host w
        → host.transport (first_request host (id_request (w.heap p)) "PUT" [] w ∷ w.sent)
          ≡ transport_error err
        → contains err "nameAlreadyExists" ≡ false
        → (w' : World host) × (fsync host p w ≡ done eremoteio w')
          × (fsync host p w' ≡ done success w')
          × (w'.queued ≡ w.queued)
          × ((w'.heap p).content ≡ some s)
    unfolding fsync
    fsync_forgets token fresh down other = (
      forgotten,
      fsync_fails (fsync_asks token fresh down) token other,
      rw hashed_lem,
      refl,
      rw hashed_lem h.content,
    )

    -- A file that was made here and written to, on a drive of a known type and with tokens that
    -- have not expired: when the request for its id fails below HTTP and the database refuses its
    -- contents, Flush reports success, takes the contents out of memory, and leaves the stored
    -- contents and the queue of uploads as they were.
    pub flush_loses :
        {err refusal : String}
        → str_eq w.auth.access_token "" ≡ false
        → IsFresh host w
        → host.transport (first_request host (id_request (w.heap p)) "PUT" [] w ∷ w.sent)
          ≡ transport_error err
        → contains err "nameAlreadyExists" ≡ false
        → host.bucket_put w.content_bucket (w.heap p).id s.elems ≡ fail refusal
        → (w' : World host) × (flush host p w ≡ done success w')
          × ((w'.heap p).content ≡ none)
          × (w'.content_bucket ≡ w.content_bucket)
          × (w'.queued ≡ w.queued)
    unfolding flush
    flush_loses {err} {refusal} token fresh down other refused =
        let end = λ (o : Outcome host (Unit {0})). and_then o (λ _. pure success) in
        let there : (forgotten.heap p).content ≡ some s = rw hashed_lem h.content in
        (
          record forgotten { heap = store hashed p (record (hashed p) { content = none }) },
          rw (fsync_fails (fsync_asks token fresh down) token other) (
              ap (λ (c : Option Slice). end (store_content host p c forgotten)) there
              ∙ ap end (
                  store_content_refused host p s forgotten {err = refusal}
                    (rw hashed_lem h.has_cache) (rw hashed_lem refused))),
          rw ==_self,
          refl,
          refl,
        )
