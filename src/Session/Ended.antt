-- ===== src/Session/Ended.antt =====
-- The calls that come after Unmount.
pub mod Calls
pub mod Late
use fusefs.Session.Ended.Calls.{Ended, is_unmount, get_empty, run-Ended, no_handle}
use fusefs.Common.{
  ℕ, ◌≡◌, refl, ap, String, Bool, true, false, List, [], ◌∷◌, Option, none, some, arith, any,
  length,
}
use fusefs.Stats.{StatsCollector, record_operation, record_error}
use fusefs.Locks.{LockManager}
use fusefs.Common.Assoc.{lookup}
use fusefs.Errno.{ebadf}
use fusefs.Fuse.{FileSystem, FuseFs, Handler, Status, count_operation, check_mounted, read_state}
use fusefs.Operations.Unmounted.{Refuses}
use fusefs.Mount.{unmount}
use fusefs.Handles.{get, count}
use fusefs.Mount.Unmounting.{none_open}
use fusefs.Common.Keys.{string_key}
use fusefs.Handles
use fusefs.Handles.Lifecycle.{Covers, count-close_all, release_closed}
use fusefs.Inodes.{total_inodes, clear, get_cached, get_dir_cache}
use fusefs.Cache
use fusefs.Session.Frames.Rules.{Keeps}
use fusefs.Session.{Request, serve, run}
use fusefs.Operations.Entries.{FileHandle, look_up, mkdir, create, symlink, link}
use fusefs.Operations.Files.{
  open_node, fsync, tracked, tracked_quiet, read, write, flush, allocate, release, release_locks,
  release_handle, getlk, setlk, setlkw, flock, on_locks,
}
use fusefs.Operations.Attributes.{getattr, setattr, access, statfs}
use fusefs.Operations.Directories.{readdir, unlink, rmdir, rename, readlink}
use fusefs.Operations.Xattrs.{xattr_fs, getxattr, setxattr, listxattr, removexattr}

module _ {World File : Type 0} (fs : FileSystem World File) where
  pub unmount-Ended :
      (server : Option (Status World)) (order : List ℕ) (s : FuseFs World File)
      → Covers order s.handle_tracker
      → let t = (unmount fs server order s).0 in Ended t.world t
  unfolding unmount clear Cache.clear
  unmount-Ended none order s c = record {
    stopped = refl;
    closed = count-close_all fs.close order s.handle_tracker s.world c;
    forgotten = refl;
    attrs = refl;
    dirs = refl;
    untouched = refl;
  }
  unmount-Ended (some call) order s c = record {
    stopped = refl;
    closed = count-close_all fs.close order s.handle_tracker s.world c;
    forgotten = refl;
    attrs = refl;
    dirs = refl;
    untouched = refl;
  }

  -- After an Unmount whose CloseAll met every open handle, and any sequence of calls after it that
  -- are not Unmounts, the filesystem still counts as unmounting, the mounted filesystem has not
  -- been called again, no handle is open, no path is known, and no attributes or listing are
  -- cached.
  pub after_unmount :
      (server : Option (Status World)) (order : List ℕ) (s : FuseFs World File)
      (rs : List (Request World))
      → Covers order s.handle_tracker
      → any is_unmount rs ≡ false
      → let t = (unmount fs server order s).0 in
        let r = run fs rs t in
        (r.unmounting ≡ true)
        × (r.world ≡ t.world)
        × ((fh : ℕ) → get r.handle_tracker fh ≡ none)
        × (total_inodes r.inode_manager ≡ 0)
        × ((now : ℕ) (path : String) → (get_cached r.inode_manager now path).1 ≡ none)
        × ((now : ℕ) (path : String) → (get_dir_cache r.inode_manager now path).1 ≡ none)
  unfolding get_cached get_dir_cache total_inodes
  after_unmount server order s rs c o =
      let e = run-Ended fs _ rs _ o (unmount-Ended server order s c) in
      (
        e.stopped,
        e.untouched,
        no_handle fs _ _ e,
        ap length e.forgotten,
        λ now path. get_empty _ now path e.attrs,
        λ now path. get_empty _ now path e.dirs,
      )
