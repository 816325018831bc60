-- ===== src/Operations/Examples/Caches.antt =====
-- Two calls of Readdir: the theorem at inputs that meet its hypotheses.
use fusefs.Common.{refl, ◌≡◌, ◌*◌, ◌^◌, List, ℕ_discrete}
use fusefs.Common.Keys.{string_discrete}
use fusefs.Common.Assoc.{lookup, insert, remove}
use fusefs.Absfs.{DirEntry}
use fusefs.Fuse.{
  done, new_fuse_fs, count_operation, check_mounted, attempt, read_state, with_inodes, on_inodes,
}
use fusefs.Options.{default_mount_options}
use fusefs.Inodes.{
  new_inode_manager, get_inode, retire, is_same_file, get_cached, cache, get_dir_cache, cache_dir,
}
use fusefs.Cache.{
  new_lru_cache, put, hit, find_id, erase_id, is_expired, remove_element, evict_over, push_front,
  renew, back, evict_oldest,
}
use fusefs.Cache
use fusefs.Cache.Agreement.{Agrees, new_lru_cache-Agrees}
use fusefs.Operations.Directories.{
  readdir, fuse_entries, fresh_entries, read_and_close, store_listing, readdir_among,
}
use fusefs.Operations.Caching.{readdir_again}
use fusefs.Operations.Samples.{small_fs, start, listed, entries}

program : Unit {0}
unfolding new_fuse_fs default_mount_options new_inode_manager new_lru_cache count_operation
    check_mounted attempt read_state with_inodes on_inodes readdir readdir_among fuse_entries
    fresh_entries read_and_close store_listing get_inode fusefs.Inodes.allocate retire is_same_file
    get_dir_cache cache_dir Cache.get put hit find_id erase_id is_expired remove_element evict_over
    push_front renew back evict_oldest lookup insert remove string_discrete ℕ_discrete
program = tt

dirs-Agrees : Agrees start.inode_manager.dir_cache
unfolding new_fuse_fs new_inode_manager default_mount_options
dirs-Agrees = new_lru_cache-Agrees (List DirEntry) 1000 (5 * 10 ^ 9)

readdir_again_example :
    ((readdir small_fs 101 "/" listed).0 ≡ done entries)
    × ((readdir small_fs 101 "/" listed).1.world ≡ 3)
unfolding program
readdir_again_example = readdir_again small_fs start "/" 100 101 entries dirs-Agrees refl refl refl
