-- ===== src/Statfs.antt =====
-- graph/inode.go: Statfs, the sizes of the file system.
pub mod Effects
use onedriver.Prelude.{ℕ, ◌+◌, ◌-◌, ◌/◌, ◌%◌, ◌^◌, Option, none, some}
use onedriver.Item.{Result, ok, fail, Drive}
use onedriver.Host.{Host}
use onedriver.World.{Ptr, M, pure, ◌>>=◌, ◌>>◌}
use onedriver.Graph.{shared_auth, get_drive}
use onedriver.Remote.{need_cache}
use onedriver.Open.{Errno, success, eremoteio}

-- fuse.StatfsOut
pub record StatfsOut : Type 0 where
  pub block_size : ℕ
  pub blocks : ℕ
  pub free_blocks : ℕ
  pub available_blocks : ℕ
  pub files : ℕ
  pub free_files : ℕ
  pub name_length : ℕ

abbrev pub blk_size : ℕ
blk_size = 4096

-- The answer for a drive; the free files are a uint64.
unfoldable pub usage_of : Drive → StatfsOut
usage_of drive = record {
  block_size = blk_size;
  blocks = drive.total / blk_size;
  free_blocks = drive.remaining / blk_size;
  available_blocks = drive.remaining / blk_size;
  files = 100000;
  free_files = (100000 + 2 ^ 64 - drive.file_count) % 2 ^ 64;
  name_length = 260;
}

module _ (host : Host) where
  stat_drive : Result Drive → Option StatfsOut × Errno
  stat_drive (fail err) = (none, eremoteio)
  stat_drive (ok drive) = (some (usage_of drive), success)

  -- Statfs
  unfoldable pub stat_fs : Ptr → M host (Option StatfsOut × Errno)
  unfolding stat_drive
  stat_fs p = do need_cache host p; drive ← get_drive host shared_auth; pure (stat_drive drive)
