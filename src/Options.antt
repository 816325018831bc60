-- ===== src/Options.antt =====
-- options.go: the mount options. Durations are numbers of nanoseconds.
use fusefs.Common.{ℕ, ◌*◌, ◌^◌, String, Bool, true, false, List, []}

pub record MountOptions : Type 0 where
  pub mountpoint : String
  pub read_only : Bool
  pub allow_other : Bool
  pub allow_root : Bool
  pub default_permissions : Bool
  pub uid : ℕ
  pub gid : ℕ
  pub direct_io : Bool
  pub max_readahead : ℕ
  pub max_write : ℕ
  pub async_read : Bool
  pub attr_timeout : ℕ
  pub entry_timeout : ℕ
  pub fs_name : String
  pub options : List String
  pub debug : Bool
  pub attr_cache_ttl : ℕ
  pub dir_cache_ttl : ℕ
  pub max_cached_inodes : ℕ
  pub max_cached_dirs : ℕ

abbrev pub second : ℕ
second = 10 ^ 9

unfoldable pub default_mount_options : String → MountOptions
default_mount_options mountpoint = record {
  mountpoint = mountpoint;
  read_only = false;
  allow_other = false;
  allow_root = false;
  default_permissions = true;
  uid = 0;
  gid = 0;
  direct_io = false;
  max_readahead = 128 * 1024;
  max_write = 128 * 1024;
  async_read = true;
  attr_timeout = 1 * second;
  entry_timeout = 1 * second;
  fs_name = "fusefs";
  options = [];
  debug = false;
  attr_cache_ttl = 5 * second;
  dir_cache_ttl = 5 * second;
  max_cached_inodes = 10000;
  max_cached_dirs = 1000;
}
