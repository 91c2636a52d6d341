-- ===== src/Delta.antt =====
-- graph/delta.go: changes on the server, fetched and applied to the cache.
pub mod Overwrite
pub mod Poll
pub mod Entries
pub mod Entered
pub mod Joins
pub mod Order
pub mod Round
pub mod Last
pub mod Online
pub mod Pages
pub mod Effects
pub mod Failed
use onedriver.Prelude.{
  ℕ, zero, suc, String, Bool, true, false, not, ◌&&◌, ◌||◌, Option, none, some, List, [], ◌∷◌,
  if◌then◌else◌, ltb, str_eq, is_some, insert, trim_prefix,
}
use onedriver.Item.{Bytes, Result, ok, fail, DriveItem, DeltaResponse}
use onedriver.Host.{Host}
use onedriver.World.{Inode, Ptr, M, done, pure, ◌>>=◌, ◌>>◌, get_world, load, modify, deref, alloc}
use onedriver.Fields.{bare_inode, parent_id, get_size}
use onedriver.Graph.{graph_url, shared_auth, get}
use onedriver.Cache.{get_id, insert_child, delete_id}
use onedriver.Cache.Content.{serialize_all, put_or_keep}
use onedriver.Handlers.{rename}

-- The overwrite at the end of applyDelta.
pub overwrite_inode : Inode → Inode → Inode
overwrite_inode delta i = record i {
  item = record i.item { mod_time = delta.mod_time; file = delta.file };
  has_changes = false;
  content = none;
}

module _ (host : Host) where
  -- The last part of applyDelta: a newer and not empty remote file replaces the local one.
  pub apply_content : Ptr → Ptr → M host (Option String)
  apply_content delta p = do
    d ← load delta
    i ← load p
    theirs ← deref d.mod_time
    ours ← deref i.mod_time
    let overwrite = do modify p (overwrite_inode d); pure none
    if ltb ours theirs && ltb 0 (get_size d) then overwrite else pure none

  -- The item has another parent or name on the server.
  unfoldable pub apply_rename : Ptr → Ptr → Option Ptr → Option Ptr → M host (Option String)
  apply_rename delta p (some parent) (some new_parent) = do
    d ← load delta
    i ← load p
    ignored ← rename host parent i.name new_parent d.name
    apply_content delta p
  apply_rename delta p _ _ = pure (some "Parent not in cache")

  -- An item that the cache has or has not.
  pub apply_known : Ptr → Option Ptr → M host (Option String)
  apply_known delta none = do d ← load delta; insert_child host (parent_id d) delta; pure none
  apply_known delta (some p) = do
    d ← load delta
    i ← load p
    let move = do
      parent ← get_id host (parent_id i)
      new_parent ← get_id host (parent_id d)
      apply_rename delta p parent new_parent
    let same = apply_content delta p
    if not (str_eq (parent_id i) (parent_id d)) || not (str_eq i.name d.name) then move else same

  -- applyDelta of an item whose parent is in the cache.
  pub apply_below : Ptr → Option Ptr → M host (Option String)
  apply_below delta none = pure none
  apply_below delta (some parent) = do
    d ← load delta
    let delete = do delete_id host d.id; pure none
    let keep = do local ← get_id host d.id; apply_known delta local
    if is_some d.deleted then delete else keep

  -- applyDelta
  pub apply_delta : Ptr → M host (Option String)
  apply_delta delta = do
    d ← load delta
    parent ← get_id host (parent_id d)
    apply_below delta parent

  pub set_delta_link : String → M host (Unit {0})
  set_delta_link link w = done tt (record w { delta_link = trim_prefix link graph_url })

  pub read_page : DeltaResponse → M host (List DriveItem × Bool)
  unfolding set_delta_link
  read_page page = do
    let last = str_eq page.next_link ""
    set_delta_link (if last then page.delta_link else page.next_link)
    pure (page.values, not last)

  pub page_of : Result Bytes → M host (Result (List DriveItem × Bool))
  unfolding read_page
  page_of (fail err) = pure (fail err)
  page_of (ok body) = do page ← read_page (host.unmarshal_delta body); pure (ok page)

  -- pollDeltas: a page, and whether another follows.
  unfoldable pub poll_deltas : M host (Result (List DriveItem × Bool))
  unfolding page_of
  poll_deltas = do w ← get_world; body ← get host w.delta_link shared_auth; page_of body

  -- The last delta for an item is the one that counts.
  unfoldable pub keep_last : List DriveItem → List (String × Ptr) → M host (List (String × Ptr))
  keep_last [] deltas = pure deltas
  keep_last (item ∷ items) deltas = do
    p ← alloc (bare_inode host item)
    keep_last items (insert item.id p deltas)

  pub set_offline : Bool → M host (Unit {0})
  set_offline offline w = done tt (record w { offline = offline })

  -- The inner loop of deltaLoop: the deltas and whether all pages came. `none` means that the fuel
  -- ran out before the server sent its last page.
  unfoldable pub poll_all : ℕ → List (String × Ptr) → M host (Option (List (String × Ptr) × Bool))
  unfolding set_offline
  poll_all zero deltas = pure none
  poll_all (suc fuel) deltas = do
    page ← poll_deltas
    elim page [
      | fail err ↦ do set_offline true; pure (some (deltas, false))
      | ok (items, more) ↦ do
        next ← keep_last items deltas
        let again = poll_all fuel next
        if more then again else pure (some (next, true))
    ]

  -- The loop over the deltas; errors are dropped.
  unfoldable pub apply_all : List (String × Ptr) → M host (Unit {0})
  apply_all [] = pure tt
  apply_all ((id, delta) ∷ deltas) = do ignored ← apply_delta delta; apply_all deltas

  save_delta_link : M host (Unit {0})
  save_delta_link w = done tt (record w {
    delta_bucket = put_or_keep host w.delta_bucket "deltaLink" (host.bytes_of w.delta_link);
  })

  -- The end of a round: only a whole poll brings the file system online.
  pub finish_round : Bool → M host (Unit {0})
  unfolding set_offline save_delta_link
  finish_round false = pure tt
  finish_round true = do set_offline false; save_delta_link

  pub apply_round : List (String × Ptr) → Bool → M host (Unit {0})
  unfolding finish_round
  apply_round deltas success = do
    apply_all deltas
    w ← get_world
    if w.offline then pure tt else serialize_all host
    finish_round success

  pub after_poll : Option (List (String × Ptr) × Bool) → M host (Option Bool)
  unfolding apply_round
  after_poll none = pure none
  after_poll (some (deltas, success)) = do apply_round deltas success; pure (some success)

  -- One round of deltaLoop, with fuel for the pages: whether the poll succeeded.
  unfoldable pub delta_round : ℕ → M host (Option Bool)
  unfolding after_poll
  delta_round fuel = do polled ← poll_all fuel []; after_poll polled
