-- ===== src/Inodes.antt =====
-- inode.go: inode numbers by path, and the caches of attributes and of directory listings. Each
-- method that touches the maps holds their mutexes throughout.
pub mod Numbers
pub mod Stability
mod Examples
use fusefs.Common.{
  ℕ, ◌+◌, ◌%◌, ◌^◌, String, Bool, false, ◌&&◌, List, [], Option, none, some, length, ◌==◌,
  if◌then◌else◌,
}
use fusefs.Common.Keys.{string_key, nat_key}
use fusefs.Common.Assoc.{Assoc, lookup, insert, remove}
use fusefs.Absfs.{FileInfo, Attr, DirEntry}
use fusefs.Cache.{LruCache, CacheStats, zero_rate, new_lru_cache}
use fusefs.Cache

pub record InodeMeta : Type 0 where
  pub mod_time : ℕ
  pub size : ℕ

pub record InodeManager : Type 0 where
  pub path_to_inode : Assoc String ℕ
  pub inode_to_path : Assoc ℕ String
  pub next_inode : ℕ
  pub attr_cache : LruCache Attr
  pub dir_cache : LruCache (List DirEntry)
  pub inode_to_meta : Assoc ℕ InodeMeta

unfoldable pub new_inode_manager : ℕ → ℕ → ℕ → ℕ → InodeManager
new_inode_manager attr_cache_size dir_cache_size attr_ttl dir_ttl = record {
  path_to_inode = [];
  inode_to_path = [];
  next_inode = 1;
  attr_cache = new_lru_cache attr_cache_size attr_ttl;
  dir_cache = new_lru_cache dir_cache_size dir_ttl;
  inode_to_meta = [];
}

abbrev pub same_meta : InodeMeta → FileInfo → Bool
same_meta meta info = meta.mod_time == info.mod_time && meta.size == info.size

unfoldable pub is_same_file : InodeManager → ℕ → FileInfo → Bool
is_same_file im ino info = elim (lookup ino im.inode_to_meta) [
  | none ↦ false
  | some meta ↦ same_meta meta info
]

-- The end of GetInode: a new number for the path.
unfoldable pub allocate : InodeManager → String → FileInfo → InodeManager × ℕ
allocate im path info =
    let ino = (im.next_inode + 1) % 2 ^ 64 in
    (
      record im {
        next_inode = ino;
        path_to_inode = insert path ino im.path_to_inode;
        inode_to_path = insert ino path im.inode_to_path;
        inode_to_meta =
            insert ino (record { mod_time = info.mod_time; size = info.size }) im.inode_to_meta;
      },
      ino,
    )

-- A number whose file changed.
unfoldable pub retire : InodeManager → ℕ → InodeManager
retire im ino = record im {
  inode_to_path = remove ino im.inode_to_path;
  inode_to_meta = remove ino im.inode_to_meta;
}

unfoldable pub get_inode : InodeManager → String → FileInfo → InodeManager × ℕ
get_inode im path info = elim (lookup path im.path_to_inode) [
  | none ↦ allocate im path info
  | some ino ↦ if is_same_file im ino info then (im, ino) else allocate (retire im ino) path info
]

unfoldable pub get_cached : InodeManager → ℕ → String → InodeManager × Option Attr
get_cached im now path =
    let (c, attr) = Cache.get im.attr_cache now path in (record im { attr_cache = c }, attr)

unfoldable pub cache : InodeManager → ℕ → String → Attr → InodeManager
cache im now path attr = record im { attr_cache = Cache.put im.attr_cache now path attr }

unfoldable pub cache_dir : InodeManager → ℕ → String → List DirEntry → InodeManager
cache_dir im now path entries = record im { dir_cache = Cache.put im.dir_cache now path entries }

unfoldable pub get_dir_cache : InodeManager → ℕ → String → InodeManager × Option (List DirEntry)
get_dir_cache im now path =
    let (c, entries) = Cache.get im.dir_cache now path in (record im { dir_cache = c }, entries)

unfoldable pub invalidate_dir : InodeManager → String → InodeManager
invalidate_dir im path = record im { dir_cache = Cache.delete im.dir_cache path }

unfoldable pub invalidate_attr : InodeManager → String → InodeManager
invalidate_attr im path = record im { attr_cache = Cache.delete im.attr_cache path }

-- `next_inode` goes on from where it was.
-- The parts of Clear: the maps, which pathMu guards, and the two caches, each with a mutex of its
-- own, which the other methods take without pathMu.
abbrev pub forget_numbers : InodeManager → InodeManager
forget_numbers im = record im { path_to_inode = []; inode_to_path = []; inode_to_meta = [] }

abbrev pub clear_attrs : InodeManager → InodeManager
clear_attrs im = record im { attr_cache = Cache.clear im.attr_cache }

abbrev pub clear_dirs : InodeManager → InodeManager
clear_dirs im = record im { dir_cache = Cache.clear im.dir_cache }

unfoldable pub clear : InodeManager → InodeManager
clear im = clear_dirs (clear_attrs (forget_numbers im))

unfoldable pub total_inodes : InodeManager → ℕ
total_inodes im = length im.path_to_inode

pub record InodeManagerStats : Type 0 where
  pub total_inodes : ℕ
  pub attr_cache : CacheStats
  pub dir_cache : CacheStats

unfoldable pub stats : InodeManager → InodeManagerStats
stats im = record {
  total_inodes = total_inodes im;
  attr_cache = Cache.stats im.attr_cache;
  dir_cache = Cache.stats im.dir_cache;
}

-- The zero values of CacheStats and InodeManagerStats.
abbrev zero_cache_stats : CacheStats
zero_cache_stats = record {
  size = 0;
  max_size = 0;
  hits = 0;
  misses = 0;
  evictions = 0;
  hit_rate = zero_rate;
}

abbrev pub zero_stats : InodeManagerStats
zero_stats = record {
  total_inodes = 0;
  attr_cache = zero_cache_stats;
  dir_cache = zero_cache_stats;
}
