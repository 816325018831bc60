-- ===== src/Operations/Examples.antt =====
-- The handlers over a small mounted filesystem: tests, and the theorems at inputs that meet their
-- hypotheses.
mod Names
mod Caches
use fusefs.Common.{
  refl, ℕ, ℕ_discrete, false, some, ◌∷◌, [], none, length, true, ◌≡◌, ◌^◌, has_flag, ◌<◌, arith,
  ◌⊎◌, ◌↔◌, List, ◌*◌, ite, ◌+◌,
}
use fusefs.Common.Keys.{string_discrete, string_key, nat_key}
use fusefs.Common.Assoc.{lookup, insert, remove}
use fusefs.Handles
use fusefs.Cache
use fusefs.Absfs.{DirEntry, ok}
use fusefs.Fuse.{
  FileSystem, XattrFs, Reply, new_fuse_fs, count_operation, count_error, check_mounted, give_up,
  attempt, attempt_status, ignore_status, read_state, with_inodes, on_inodes, require,
}
use fusefs.Options.{default_mount_options}
use fusefs.Operations.Entries.{mkdir, symlink, link, add_handle, look_up, create}
use fusefs.Operations.Files.{open_node, read, write, flush, allocate, release, fsync, open_among}
use fusefs.Operations.Attributes.{
  getattr, setattr, permitted, check_perm, fresh_attr, is_owner, is_group, lacks, access, statfs,
  store_attr,
}
use fusefs.Operations.Listing.{listxattr_lem}
use fusefs.Operations.Unmounted.{Refuses, node_handlers-Refuses}
use fusefs.Operations.Closing.{release_lem, open_node_lem}
use fusefs.Operations.Staleness.{setattr-cached}
use fusefs.Operations.Listings.{remove-Unlisted, rename-Unlisted, Unlisted}
use fusefs.Operations.Directories.{
  unlink, rmdir, rename, readlink, store_listing, readdir, fresh_entries, fuse_entries,
  read_and_close, readdir_among,
}
use fusefs.Operations.Xattrs.{
  fill, name_list, total_size, getxattr, setxattr, listxattr, removexattr,
}
use fusefs.Operations.{
  fill_attr, map_open_flags, o_wronly, o_rdwr, o_append, o_create, o_trunc, o_excl,
}
use fusefs.Inodes.{
  get_cached, cache, cache_dir, get_dir_cache, invalidate_dir, get_inode, is_same_file, retire,
  new_inode_manager,
}
use fusefs.Handles.{new_handle_tracker, add, release_entry, count}
use fusefs.Handles.Lifecycle.{IsValid, new_handle_tracker-IsValid, add-IsValid}
use fusefs.Errno.{success, eacces, ebadf}
use fusefs.Locks.{new_lock_manager}
use fusefs.Stats.{record_operation, record_error, record_read, record_write, new_stats_collector}
use fusefs.Cache.{
  new_lru_cache, hit, put, delete, find_id, erase_id, is_expired, remove_element, evict_over,
  push_front, renew, back, evict_oldest, LruCache,
}
use fusefs.Errors.{map_error}
use fusefs.Cache.Agreement.{Agrees, new_lru_cache-Agrees}
use fusefs.Locks.Bytes.{holds}
use fusefs.Cache.Refinement.{put-PutsLike, get-GetsLike}
use fusefs.Operations.Samples.{
  info, small_fs, start, opened, handle, known, attr, truncation, caller, stopped, listed, entries,
}

program : Unit {0}
unfolding new_fuse_fs default_mount_options count_operation count_error check_mounted give_up
    attempt attempt_status ignore_status read_state with_inodes on_inodes require open_node
    open_among map_open_flags add_handle getattr fresh_attr store_attr setattr fill_attr get_cached
    cache cache_dir get_dir_cache invalidate_dir get_inode is_same_file fusefs.Inodes.allocate
    retire new_inode_manager new_handle_tracker add Handles.get Handles.release release_entry count
    new_lock_manager record_operation record_error record_read record_write new_stats_collector
    new_lru_cache Cache.get hit put delete find_id erase_id is_expired remove_element evict_over
    push_front renew back evict_oldest lookup insert remove string_discrete ℕ_discrete permitted
    check_perm is_owner is_group lacks readdir readdir_among unlink rename fresh_entries
    fuse_entries read_and_close store_listing
program = tt

session_test :
    ((open_node small_fs "/f" 2 start).0 ≡ Reply.done handle)
    × (opened.world ≡ 1)
    × ((getattr small_fs 100 "/f" start).0 ≡ Reply.done (record { attr = attr; timeout = 10 ^ 9 }))
unfolding program
session_test = (refl, refl, refl)

start-IsValid : IsValid start.handle_tracker
unfolding new_fuse_fs
start-IsValid = new_handle_tracker-IsValid ℕ

opened-IsValid : IsValid opened.handle_tracker
unfolding program
opened-IsValid = add-IsValid start.handle_tracker 7 2 "/f" (omega arith) start-IsValid

node_handlers-Refuses_example :
    Refuses (look_up small_fs "/f" "a") stopped
    × Refuses (getattr small_fs 100 "/f") stopped
    × Refuses (setattr small_fs 100 "/f" none truncation) stopped
    × Refuses (open_node small_fs "/f" 2) stopped
    × Refuses (readdir small_fs 100 "/f") stopped
    × Refuses (create small_fs "/f" "a" 2 0) stopped
    × Refuses (mkdir small_fs "/f" "a" 0) stopped
    × Refuses (unlink small_fs "/f" "a") stopped
    × Refuses (rmdir small_fs "/f" "a") stopped
    × Refuses (rename small_fs "/f" "a" (some "/") "b") stopped
    × Refuses (symlink small_fs "/f" "b" "a") stopped
    × Refuses (link small_fs "/f" (some "/") "a") stopped
    × Refuses (readlink small_fs "/f") stopped
    × Refuses (fsync small_fs none) stopped
    × Refuses (access small_fs "/f" (some caller) 2) stopped
    × Refuses (statfs small_fs) stopped
    × Refuses (getxattr small_fs "/f" [] none) stopped
    × Refuses (setxattr small_fs "/f" [] [] 2) stopped
    × Refuses (listxattr small_fs "/f" none) stopped
    × Refuses (removexattr small_fs "/f" []) stopped
unfolding program
node_handlers-Refuses_example =
    node_handlers-Refuses small_fs stopped 100 "/f" "a" "b" 2 0 (some "/") none truncation
      (some caller) [] none refl

-- Every path has the attributes "ab" and "c".
abbrev xattr_names : List (List ℕ)
xattr_names = (97 ∷ 98 ∷ []) ∷ (99 ∷ []) ∷ []

abbrev xattr_table : XattrFs ℕ
xattr_table = record {
  get_xattr = λ path name w. (w + 1, ok []);
  set_xattr = λ path name bytes flags w. (w + 1, none);
  list_xattr = λ path w. (w + 1, ok xattr_names);
  remove_xattr = λ path name w. (w + 1, none);
}

abbrev xattr_fs : FileSystem ℕ ℕ
xattr_fs = record small_fs { xattrs = some xattr_table }

listxattr_lem_example :
    ((listxattr xattr_fs "/f" none start).0 ≡ Reply.done (some (5, [])))
    × ((listxattr xattr_fs "/f" (some 5) start).0
        ≡ Reply.done (some (5, 97 ∷ 98 ∷ 0 ∷ 99 ∷ 0 ∷ [])))
unfolding program name_list
listxattr_lem_example = listxattr_lem xattr_fs start "/f" 5 refl refl refl

open_node_lem_example :
    ((open_node small_fs "/f" 2 start).0 ≡ Reply.done handle)
    × (opened.world ≡ 1)
    × (Handles.get start.handle_tracker 1 ≡ none)
    × ((q : ℕ)
        → Handles.get opened.handle_tracker q
          ≡ ite (ℕ_discrete 1 q) (some 7) (Handles.get start.handle_tracker q))
unfolding program
open_node_lem_example =
    open_node_lem small_fs start "/f" 2 {file = 7} {w = 1} refl refl (omega arith) start-IsValid

release_lem_example :
    let r = release small_fs handle opened in
    (r.0 ≡ Reply.errno (map_error none))
    × (r.1.world ≡ 2)
    × (Handles.get r.1.handle_tracker 1 ≡ none)
    × (holds r.1.lock_manager "/f" 1 1 0 ≡ false)
unfolding program
release_lem_example = release_lem small_fs opened handle "/f" 1 1 0 opened-IsValid tt refl

setattr-cached_example :
    let r = (setattr small_fs 101 "/f" none truncation known).0 in
    (r ≡ Reply.done (record { attr = attr; timeout = 10 ^ 9 })) ⊎ ((n : ℕ) × (r ≡ Reply.errno n))
unfolding program
setattr-cached_example = setattr-cached small_fs 101 "/f" none truncation known attr refl refl

start-Agrees : Agrees start.inode_manager.dir_cache
unfolding program
start-Agrees = new_lru_cache-Agrees (List DirEntry) 1000 (5 * 10 ^ 9)

listed-Agrees : Agrees listed.inode_manager.dir_cache
unfolding program
listed-Agrees =
    let c : LruCache (List DirEntry) = start.inode_manager.dir_cache in
    (put-PutsLike (Cache.get c 100 "/").0 (get-GetsLike c start-Agrees 100 "/").agrees 100 "/"
      entries).agrees

listed_test : (get_dir_cache listed.inode_manager 101 "/").1 ≡ some entries
unfolding program
listed_test = refl

remove-Unlisted_example :
    Unlisted (unlink small_fs "/" "f" listed).1.inode_manager "/"
    × Unlisted (rmdir small_fs "/" "f" listed).1.inode_manager "/"
unfolding program
remove-Unlisted_example = remove-Unlisted small_fs listed "/" "f" listed-Agrees refl

rename-Unlisted_example :
    Unlisted (rename small_fs "/" "f" (some "/d") "g" listed).1.inode_manager "/"
    × Unlisted (rename small_fs "/" "f" (some "/d") "g" listed).1.inode_manager "/d"
unfolding program
rename-Unlisted_example = rename-Unlisted small_fs listed "/" "f" "/d" "g" listed-Agrees refl
