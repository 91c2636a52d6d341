-- ===== src/Cache/Content.antt =====
-- graph/cache.go: file contents and metadata in the database.
use Prim.Native.String.{◌++◌}
use onedriver.Prelude.{String, Option, none, some, List, [], ◌∷◌, if◌then◌else◌, str_eq}
use onedriver.Item.{Bytes, ok, fail, SerializeableInode}
use onedriver.Host.{Host}
use onedriver.World.{Inode, Ptr, World, M, done}

-- The record that AsJSON writes.
unfoldable pub serializeable : Inode → SerializeableInode
serializeable i = record { item = i.item; children = i.children; subdir = i.subdir; mode = i.mode }

module _ (host : Host) where
  -- GetContent
  unfoldable pub get_content : String → M host (Option Bytes)
  get_content id w = done (host.bucket_get w.content_bucket id) w

  -- A Put whose error is dropped.
  unfoldable pub put_or_keep : host.Bucket → String → Bytes → host.Bucket
  put_or_keep b id content = elim (host.bucket_put b id content) [ ok c ↦ c | fail err ↦ b ]

  -- InsertContent
  unfoldable pub insert_content : String → Bytes → M host (Option String)
  insert_content id content w = elim (host.bucket_put w.content_bucket id content) [
    | ok b ↦ done none (record w { content_bucket = b })
    | fail err ↦ done (some err) w
  ]

  -- DeleteContent
  unfoldable pub delete_content : String → M host (Option String)
  delete_content id w =
      done none (record w { content_bucket = host.bucket_delete w.content_bucket id })

  -- MoveContent
  unfoldable pub move_content : String → String → M host (Option String)
  move_content old_id new_id w = elim (host.bucket_get w.content_bucket old_id) [
    | none ↦ done (some ("Content not found for ID: " ++ old_id)) w
    | some content ↦ done none (record w {
      content_bucket = host.bucket_delete (put_or_keep w.content_bucket new_id content) old_id;
    })
  ]

  -- One round of SerializeAll: the root is written under its own name too.
  unfoldable pub serialize : World host → host.Bucket → String × Ptr → host.Bucket
  serialize w b (id, p) =
      let contents = host.marshal_inode (serializeable (w.heap p)) in
      let written = put_or_keep b id contents in
      if str_eq id w.root then put_or_keep written "root" contents else written

  unfoldable pub serialize_list : World host → host.Bucket → List (String × Ptr) → host.Bucket
  serialize_list w b [] = b
  serialize_list w b (entry ∷ entries) = serialize_list w (serialize w b entry) entries

  -- SerializeAll; the order of the entries of a sync.Map is that of the list.
  unfoldable pub serialize_all : M host (Unit {0})
  serialize_all w =
      done tt (record w { metadata_bucket = serialize_list w w.metadata_bucket w.metadata })
