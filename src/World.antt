-- ===== src/World.antt =====
-- The state that the handlers of the file system share, and the monad in which they run: inodes
-- live at addresses and are shared by the cache and by the kernel's handles. Each operation runs
-- alone: locks are left out.
pub mod Inversion
pub mod Effects
pub mod Mode
pub mod Store
use onedriver.Prelude.{ℕ, ◌+◌, String, Bool, Option, none, some, List, ◌∷◌, ◌==◌, if◌then◌else◌}
use onedriver.Item.{Bytes, DriveItem, Auth, HttpRequest, HttpResult, UploadState}
use onedriver.Host.{Host}

-- A Go byte slice: its elements, and what lies behind them in its array, up to its capacity.
pub record Slice : Type 0 where
  pub elems : Bytes
  pub spare : Bytes

-- Inode. `has_cache` says whether the `cache` pointer is set (there is one cache).
pub record Inode : Type 0 where
  pub item : DriveItem
  pub open item use *
  pub has_cache : Bool
  pub children : Option (List String)
  pub content : Option Slice
  pub has_changes : Bool
  pub subdir : ℕ
  pub mode : ℕ

-- UploadSession, as it is handed to the upload manager.
pub record UploadSession : Type 0 where
  pub id : String
  pub upload_url : String
  pub size : ℕ
  pub content : Bytes
  pub state : UploadState

abbrev pub Ptr : Type 0
Ptr = ℕ

-- The Cache, the inodes, and the traces that the environment reads: the requests sent (last first),
-- the numbers of clock readings and of random draws, the tokens written to disk and the sessions
-- handed to the upload manager (last first; `none` is a nil session). `fuse_path` is the path of an
-- inode below the root in go-fuse's tree, as it is when a call comes in: go-fuse changes its tree
-- itself, so that no handler writes it, and each call may find another one.
pub record World (host : Host) : Type 0 where
  pub heap : Ptr → Inode
  pub next : Ptr
  pub metadata : List (String × Ptr)
  pub root : String
  pub delta_link : String
  pub auth : Auth
  pub drive_type : String
  pub offline : Bool
  pub content_bucket : host.Bucket
  pub metadata_bucket : host.Bucket
  pub delta_bucket : host.Bucket
  pub sent : List HttpRequest
  pub readings : ℕ
  pub draws : ℕ
  pub token_files : List (String × Auth)
  pub queued : List (Option UploadSession)
  pub fuse_path : Ptr → String

-- How a handler ends: with a value, by a panic (a nil pointer, a slice out of range), or with the
-- whole process (log.Fatal).
pub data Outcome (host : Host) (A : Type 0) : Type 0 where
  done : A → World host → Outcome host A
  panic : Outcome host A
  exit : Outcome host A

abbrev pub M : Host → Type 0 → Type 0
M host A = World host → Outcome host A

abbrev pub pure : {host : Host} {A : Type 0} → A → M host A
pure a w = done a w

module _ {host : Host} {A B : Type 0} where
  abbrev pub and_then : Outcome host A → (A → M host B) → Outcome host B
  and_then (done a w) k = k a w
  and_then panic k = panic
  and_then exit k = exit

module _ {host : Host} {A B : Type 0} where
  infixl 5 ◌>>=◌ ◌>>◌
  abbrev pub ◌>>=◌ : M host A → (A → M host B) → M host B
  ◌>>=◌ m k w = and_then (m w) k

  abbrev pub ◌>>◌ : M host A → M host B → M host B
  ◌>>◌ m n w = and_then (m w) (λ _. n)

-- The heap after a write of one inode.
abbrev pub store : (Ptr → Inode) → Ptr → Inode → Ptr → Inode
store heap p i q = if p == q then i else heap q

module _ {host : Host} where
  -- `*p`, and an assignment to fields of `*p`.
  abbrev pub load : Ptr → M host Inode
  load p w = done (w.heap p) w

  abbrev pub modify : Ptr → (Inode → Inode) → M host (Unit {0})
  modify p f w = done tt (record w { heap = store w.heap p (f (w.heap p)) })

  -- `&Inode{...}`
  abbrev pub alloc : Inode → M host Ptr
  alloc i w = done w.next (record w { heap = store w.heap w.next i; next = w.next + 1 })

  abbrev pub get_world : M host (World host)
  get_world w = done w w

  -- A dereference: nil panics.
  abbrev pub deref : {A : Type 0} → Option A → M host A
  deref none w = panic
  deref (some a) w = done a w

  -- time.Now().Unix(), and one random number.
  abbrev pub read_clock : M host ℕ
  read_clock w = done (host.now w.readings) (record w { readings = w.readings + 1 })

  abbrev pub draw : M host ℕ
  draw w = done (host.random w.draws) (record w { draws = w.draws + 1 })

  -- client.Do
  abbrev pub send : HttpRequest → M host HttpResult
  send r w = done (host.transport (r ∷ w.sent)) (record w { sent = r ∷ w.sent })
