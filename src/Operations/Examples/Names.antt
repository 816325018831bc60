-- ===== src/Operations/Examples/Names.antt =====
-- The handlers that make and list names, over a small mounted filesystem and two variants of it:
-- the theorems at inputs that meet their hypotheses.
use fusefs.Common.{
  refl, refute, ◌*◌, ℕ, ◌≡◌, ◌≢◌, ◌+◌, ◌^◌, String, List, [], ◌∷◌, none, some, arith, ℕ_discrete,
}
use fusefs.Common.Keys.{string_discrete}
use fusefs.Common.Assoc.{lookup, insert, remove}
use fusefs.Absfs.{DirEntry, fail}
use fusefs.Errors.{Link, map_error, as_errno, errno_or_eio}
use fusefs.Fuse.{
  FileSystem, FuseFs, done, new_fuse_fs, count_operation, check_mounted, attempt, attempt_status,
  give_up, read_state, with_inodes, on_inodes, require,
}
use fusefs.Options.{default_mount_options}
use fusefs.Stats.{record_operation, record_error, new_stats_collector}
use fusefs.Inodes.{
  new_inode_manager, get_inode, retire, is_same_file, get_dir_cache, cache_dir, invalidate_dir,
}
use fusefs.Inodes.Numbers.{IsValid, new_inode_manager-IsValid, get_inode-IsValid}
use fusefs.Inodes.Stability.{Named, get_inode-Named}
use fusefs.Cache.{
  new_lru_cache, put, delete, hit, find_id, erase_id, is_expired, remove_element, evict_over,
  push_front, renew, back, evict_oldest,
}
use fusefs.Cache
use fusefs.Cache.Agreement.{Agrees, new_lru_cache-Agrees}
use fusefs.Operations.{Child, EntryOut, fill_attr, map_open_flags, s_ifreg}
use fusefs.Operations.Entries.{
  mkdir, create, symlink, link, look_up, finish_entry, FileHandle, stat_created,
}
use fusefs.Operations.Directories.{
  readdir, rename, fuse_entries, fresh_entries, read_and_close, store_listing, readdir_among,
}
use fusefs.Operations.Listings.{Unlisted}
use fusefs.Operations.Making.{create_errno, made-Unlisted}
use fusefs.Operations.Linking.{link_apart, rename_apart}
use fusefs.Operations.Numbering.{readdir-Listed, Listed}
use fusefs.Operations.Samples.{info, small_fs, start, attr}

program : Unit {0}
unfolding new_fuse_fs default_mount_options new_inode_manager new_lru_cache new_stats_collector
    count_operation check_mounted attempt attempt_status give_up read_state with_inodes on_inodes
    require record_operation record_error map_error as_errno errno_or_eio create stat_created
    finish_entry look_up link rename readdir readdir_among fuse_entries fresh_entries read_and_close
    store_listing get_inode fusefs.Inodes.allocate retire is_same_file get_dir_cache cache_dir
    invalidate_dir map_open_flags fill_attr Cache.get put delete hit find_id erase_id is_expired
    remove_element evict_over push_front renew back evict_oldest lookup insert remove
    string_discrete ℕ_discrete Named
program = tt

-- Stat fails, with EIO.
abbrev blind_fs : FileSystem ℕ ℕ
blind_fs = record small_fs { stat = λ path w. (w + 1, fail (Link.errno 5 ∷ [])) }

-- There are hard links.
abbrev linking_fs : FileSystem ℕ ℕ
linking_fs = record small_fs { link = some (λ old new w. (w + 1, none)) }

create_errno_example :
    let t = (create blind_fs "/" "a" 2 0 start).1 in
    (t.handle_tracker ≡ start.handle_tracker) × (t.world ≡ (blind_fs.close 7 2).0)
unfolding program
create_errno_example = create_errno blind_fs start "/" "a" 2 0 5 refl

start-Agrees : Agrees start.inode_manager.dir_cache
unfolding new_fuse_fs new_inode_manager default_mount_options
start-Agrees = new_lru_cache-Agrees (List DirEntry) 1000 (5 * 10 ^ 9)

made-Unlisted_example :
    let r1 = mkdir small_fs "/" "a" 0 start in
    let r2 = create small_fs "/" "a" 2 0 start in
    let r3 = symlink small_fs "/" "b" "a" start in
    let r4 = link small_fs "/" (some "/b") "a" start in
    ((x : Child × EntryOut) → r1.0 ≡ done x → Unlisted r1.1.inode_manager "/")
    × ((x : Child × EntryOut × FileHandle) → r2.0 ≡ done x → Unlisted r2.1.inode_manager "/")
    × ((x : Child × EntryOut) → r3.0 ≡ done x → Unlisted r3.1.inode_manager "/")
    × ((x : Child × EntryOut) → r4.0 ≡ done x → Unlisted r4.1.inode_manager "/")
made-Unlisted_example = made-Unlisted small_fs start "/" "a" "b" (some "/b") 2 0 start-Agrees

start-IsValid : IsValid start.inode_manager
unfolding new_fuse_fs default_mount_options
start-IsValid = new_inode_manager-IsValid 10000 1000 (5 * 10 ^ 9) (5 * 10 ^ 9)

-- "/b" has number 2.
abbrev named : FuseFs ℕ ℕ
named = record start { inode_manager = (get_inode start.inode_manager "/b" info).0 }

named-IsValid : IsValid named.inode_manager
unfolding program
named-IsValid = get_inode-IsValid start.inode_manager "/b" info (omega arith) start-IsValid

b-Named : Named named.inode_manager "/b" 2 info
unfolding program
b-Named = get_inode-Named start.inode_manager "/b" info

paths_differ : ◌≢◌ {A = String} "/b" (linking_fs.join "/" "a")
unfolding program
paths_differ = refute (string_discrete "/b" (linking_fs.join "/" "a")) refl

link_apart_example : ◌≢◌ {A = ℕ} 3 2
unfolding program
link_apart_example =
    link_apart linking_fs named "/" "a" "/b" info 2 named-IsValid (omega arith) paths_differ b-Named
      refl

ends_differ : ◌≢◌ {A = String} (small_fs.join "" "b") (small_fs.join "" "c")
unfolding program
ends_differ = refute (string_discrete (small_fs.join "" "b") (small_fs.join "" "c")) refl

rename_apart_example : ◌≢◌ {A = ℕ} 3 2
unfolding program
rename_apart_example =
    rename_apart small_fs named "" "b" "" "c" info 2 named-IsValid (omega arith) ends_differ b-Named
      refl

readdir-Listed_example :
    (entries : List DirEntry) × ((readdir small_fs 100 "/d" start).0 ≡ done entries)
    × Listed small_fs "/d" (readdir small_fs 100 "/d" start).1.inode_manager (info ∷ []) entries
unfolding program
readdir-Listed_example =
    readdir-Listed small_fs "/d" start 100 (info ∷ []) refl refl refl refl start-IsValid
      (omega arith) (tt, tt)

abbrev found_child : Child
found_child = record { path = "/b"; mode = s_ifreg; ino = 2 }

abbrev found_out : EntryOut
found_out = record { attr = attr; entry_timeout = 10 ^ 9; attr_timeout = 10 ^ 9 }
