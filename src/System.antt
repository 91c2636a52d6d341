-- ===== src/System.antt =====
-- What the process finds around it at its start, and does not implement: the user, the file system
-- of the host and go-fuse.
use onedriver.Prelude.{ℕ, String, Bool, Option}
use onedriver.Item.{Bytes}

pub record System : Type 0 where
  pub uid : ℕ
  -- os.UserCacheDir
  pub user_cache_dir : String
  -- os.Stat finds a file, and ioutil.ReadFile reads it.
  pub exists : String → Bool
  pub read_file : String → Option Bytes
  -- os.RemoveAll, bolt.Open and fs.Mount succeed.
  pub removes : String → Bool
  pub opens_db : String → Bool
  pub mounts : String → Bool
