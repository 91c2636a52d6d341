-- ===== src/Fields/Local.antt =====
-- NewInode: what a new inode holds, and that its id is a local one.
use Prim.Native.String.{◌++◌}
use text.Mathlib.TextPositions.{starts_with-append}
use onedriver.Prelude.{ℕ, zero, suc, ◌+◌, ◌%◌, String, true, false, none, some, [], ◌≡◌, refl}
use onedriver.Host.{Host}
use onedriver.World.{Ptr, World, Inode, done, store}
use onedriver.Fields.{
  nth, charset, rand_string, local_id, item_parent, new_inode, is_local_id, inode_path,
}
use onedriver.Item.{DriveItemParent, zero_item}

-- An empty file, or directory, that was made here.
pub record IsEmptyNew (name : String) (mode : ℕ) (parent : String) (i : Inode) : Type 0 where
  pub name_same : i.name ≡ name
  pub mode_same : i.mode ≡ mode
  pub local : is_local_id i.id ≡ true
  pub below : (r : DriveItemParent) × (i.parent ≡ some r) × (r.id ≡ parent)
  pub children : i.children ≡ some []
  pub content : i.content ≡ some (record { elems = []; spare = [] })
  pub unchanged : i.has_changes ≡ false
  pub empty : i.size ≡ 0
  pub timed : (t : ℕ) × (i.mod_time ≡ some t)

module _ (host : Host) where
  rand_string_runs :
      (n : ℕ) (w : World host)
      → (s : String) × (k : ℕ) × (rand_string host n w ≡ done s (record w { draws = k }))
  unfolding rand_string
  rand_string_runs zero w = ("", w.draws, refl)
  rand_string_runs (suc n) w =
      let v : World host = record w { draws = w.draws + 1 } in
      let (s, k, run) = rand_string_runs n v in
      (nth charset (host.random w.draws % 62) ++ s, k, rw run)

  local_id_runs :
      (w : World host)
      → (id : String) × (k : ℕ) × (local_id host w ≡ done id (record w { draws = k }))
        × (is_local_id id ≡ true)
  unfolding local_id
  local_id_runs w =
      let (s, k, run) = rand_string_runs 20 w in
      ("local-" ++ s, k, rw run, rw (starts_with-append "local-" s))

  -- The world with a new inode.
  abbrev pub with_new : Inode → ℕ → World host → World host
  with_new i k w = record w {
    heap = store w.heap w.next i;
    next = w.next + 1;
    readings = w.readings + 1;
    draws = k;
  }

  -- What NewInode makes below the inode at `p`.
  abbrev made_inode : String → ℕ → Ptr → String → World host → Inode
  made_inode name mode p id w = record {
    item = record zero_item {
      id = id;
      name = name;
      parent = some (record { path = inode_path (w.heap p); id = (w.heap p).id });
      mod_time = some (host.now w.readings);
    };
    has_cache = false;
    children = some [];
    content = some (record { elems = []; spare = [] });
    has_changes = false;
    subdir = 0;
    mode = mode;
  }

  pub new_inode_runs :
      (name : String) (mode : ℕ) (p : Ptr) (w : World host)
      → (i : Inode) × (k : ℕ) × (new_inode host name mode (some p) w ≡ done w.next (with_new i k w))
        × IsEmptyNew name mode (w.heap p).id i
  unfolding new_inode item_parent
  new_inode_runs name mode p w =
      let (id, k, run, local) = local_id_runs (record w { readings = w.readings + 1 }) in
      (
        made_inode name mode p id w,
        k,
        rw run,
        record {
          name_same = refl;
          mode_same = refl;
          local = local;
          below = (_, refl, refl);
          children = refl;
          content = refl;
          unchanged = refl;
          empty = refl;
          timed = (_, refl);
        },
      )

  -- An inode without a parent, which NewInode makes for its fields only.
  pub new_inode_loose :
      (name : String) (mode : ℕ) (w : World host)
      → (i : Inode) × (k : ℕ) × (new_inode host name mode none w ≡ done w.next (with_new i k w))
  unfolding new_inode item_parent
  new_inode_loose name mode w =
      let (id, k, run, local) = local_id_runs (record w { readings = w.readings + 1 }) in
      let i = made_inode name mode 0 id w in
      (
        record i { item = record i.item { parent = some (record { path = ""; id = "" }) } },
        k,
        rw run,
      )
