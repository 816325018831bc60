-- ===== src/Session/Ended/Calls.antt =====
-- What every call but Unmount leaves of an unmounted filesystem: all that it was.
use fusefs.Common.{ℕ, ◌≡◌, refl, String, Bool, true, false, List, [], ◌∷◌, none, arith, any}
use fusefs.Stats.{StatsCollector, record_operation, record_error}
use fusefs.Locks.{LockManager}
use fusefs.Common.Assoc.{lookup}
use fusefs.Errno.{ebadf}
use fusefs.Fuse.{FileSystem, FuseFs, Handler, count_operation, check_mounted, read_state}
use fusefs.Operations.Unmounted.{Refuses}
use fusefs.Handles.{get, count}
use fusefs.Mount.Unmounting.{none_open}
use fusefs.Common.Keys.{string_key}
use fusefs.Handles
use fusefs.Handles.Lifecycle.{release_closed}
use fusefs.Cache
use fusefs.Session.Frames.Rules.{Keeps}
use fusefs.Session.{Request, serve, run}
use fusefs.Operations.Entries.{FileHandle, look_up, mkdir, create, symlink, link}
use fusefs.Operations.Files.{
  open_node, fsync, tracked, tracked_quiet, read, write, flush, allocate, release, release_locks,
  release_handle, getlk, setlk, setlkw, flock, on_locks, open_among,
}
use fusefs.Operations.Attributes.{getattr, setattr, access, statfs}
use fusefs.Operations.Directories.{readdir, unlink, rmdir, rename, readlink, readdir_among}
use fusefs.Operations.Xattrs.{xattr_fs, getxattr, setxattr, listxattr, removexattr}

-- Unmounting, with no handle, no number and nothing cached; `w` is the state of the mounted
-- filesystem.
pub record Ended {World File : Type 0} (w : World) (s : FuseFs World File) : Type 0 where
  pub stopped : s.unmounting ≡ true
  pub closed : count s.handle_tracker ≡ 0
  pub forgotten : s.inode_manager.path_to_inode ≡ []
  pub attrs : s.inode_manager.attr_cache.items ≡ []
  pub dirs : s.inode_manager.dir_cache.items ≡ []
  pub untouched : s.world ≡ w

pub get_empty :
    {V : Type 0} (c : Cache.LruCache V) (now : ℕ) (k : String)
    → c.items ≡ []
    → (Cache.get c now k).1 ≡ none
unfolding Cache.get lookup
get_empty c now k e = rw e refl

unfoldable pub is_unmount : {World : Type 0} → Request World → Bool
is_unmount (Request.call_unmount server order) = true
is_unmount _ = false

module _ {World File : Type 0} (fs : FileSystem World File) (w : World) where
  -- The handler leaves it so.
  abbrev Stays : {A : Type 0} → Handler World File A → Type 0
  Stays h = Keeps (λ b s. Ended w s) h

  module _ (s : FuseFs World File) (v : Ended w s) where
    -- The locks and the counters play no part.
    quiet :
        (st : StatsCollector) (lm : LockManager)
        → Ended w (record s { stats = st; lock_manager = lm })
    quiet st lm = record {
      stopped = v.stopped;
      closed = v.closed;
      forgotten = v.forgotten;
      attrs = v.attrs;
      dirs = v.dirs;
      untouched = v.untouched;
    }

    pub no_handle : (fh : ℕ) → get s.handle_tracker fh ≡ none
    no_handle fh = none_open s.handle_tracker fh v.closed

    none_released :
        (fh : ℕ)
        → Handles.release fs.close s.handle_tracker s.world fh ≡ (s.handle_tracker, s.world, ebadf)
    none_released fh = release_closed fs.close s.handle_tracker s.world fh (no_handle fh)

  release-Stays : (fh : FileHandle) → Stays (release fs fh)
  unfolding release count_operation release_locks release_handle
  release-Stays fh = record {
    at = λ b s v. rw (none_released s v fh.handle, release, release_handle) (quiet s v _ _);
  }

  refused :
      {A : Type 0} (h : Handler World File A) (s : FuseFs World File)
      → Ended w s
      → Refuses h s
      → Ended w (h s).1
  unfolding Refuses
  refused h s v e = rw e (quiet s v _ s.lock_manager)

  untracked :
      {A : Type 0} (h : Handler World File A) (s : FuseFs World File) (st : StatsCollector)
      → Ended w s
      → (h s).1 ≡ record s { stats = st }
      → Ended w (h s).1
  untracked h s st v e = rw e (quiet s v _ s.lock_manager)

  -- Every call but Unmount.
  served-Stays :
      (r : Request World) (s : FuseFs World File)
      → is_unmount r ≡ false
      → Ended w s
      → Ended w (serve fs r s)
  unfolding serve look_up create mkdir symlink link getattr setattr access statfs readdir
      readdir_among unlink rmdir rename readlink open_node open_among fsync read write flush
      allocate getlk setlk setlkw flock getxattr setxattr listxattr removexattr is_unmount Refuses
      xattr_fs tracked tracked_quiet on_locks count_operation check_mounted read_state
  served-Stays (Request.call_lookup path name) s o v =
      refused (look_up fs path name) s v (ground (arith, v.stopped))
  served-Stays (Request.call_create path name flags mode) s o v =
      refused (create fs path name flags mode) s v (ground (arith, v.stopped))
  served-Stays (Request.call_mkdir path name mode) s o v =
      refused (mkdir fs path name mode) s v (ground (arith, v.stopped))
  served-Stays (Request.call_symlink path target name) s o v =
      refused (symlink fs path target name) s v (ground (arith, v.stopped))
  served-Stays (Request.call_link path target name) s o v =
      refused (link fs path target name) s v (ground (arith, v.stopped))
  served-Stays (Request.call_getattr now path) s o v =
      refused (getattr fs now path) s v (ground (arith, v.stopped))
  served-Stays (Request.call_setattr now path f input) s o v =
      refused (setattr fs now path f input) s v (ground (arith, v.stopped))
  served-Stays (Request.call_access path caller mask) s o v =
      refused (access fs path caller mask) s v (ground (arith, v.stopped))
  served-Stays Request.call_statfs s o v = refused (statfs fs) s v (ground (arith, v.stopped))
  served-Stays (Request.call_readdir now path) s o v =
      refused (readdir fs now path) s v (ground (arith, v.stopped))
  served-Stays (Request.call_unlink path name) s o v =
      refused (unlink fs path name) s v (ground (arith, v.stopped))
  served-Stays (Request.call_rmdir path name) s o v =
      refused (rmdir fs path name) s v (ground (arith, v.stopped))
  served-Stays (Request.call_rename path name parent new_name) s o v =
      refused (rename fs path name parent new_name) s v (ground (arith, v.stopped))
  served-Stays (Request.call_readlink path) s o v =
      refused (readlink fs path) s v (ground (arith, v.stopped))
  served-Stays (Request.call_open path flags) s o v =
      refused (open_node fs path flags) s v (ground (arith, v.stopped))
  served-Stays (Request.call_fsync f) s o v = refused (fsync fs f) s v (ground (arith, v.stopped))
  served-Stays (Request.call_read fh size off) s o v =
      untracked (read fs fh size off) s (record_error (record_operation s.stats)) v
        (ground (arith, no_handle s v fh.handle))
  served-Stays (Request.call_write fh bytes off) s o v =
      untracked (write fs fh bytes off) s (record_error (record_operation s.stats)) v
        (ground (arith, no_handle s v fh.handle))
  served-Stays (Request.call_release fh) s o v = (release-Stays fh).at 0 s v
  served-Stays (Request.call_flush fh) s o v =
      untracked (flush fs fh) s (record_operation s.stats) v
        (ground (arith, no_handle s v fh.handle))
  served-Stays (Request.call_allocate fh off size mode) s o v =
      untracked (allocate fs fh off size mode) s (record_error (record_operation s.stats)) v
        (ground (arith, no_handle s v fh.handle))
  served-Stays (Request.call_getlk fh owner lk) s o v = quiet s v _ s.lock_manager
  served-Stays (Request.call_setlk fh owner lk) s o v = quiet s v _ _
  served-Stays (Request.call_setlkw fh owner lk) s o v = quiet s v _ _
  served-Stays (Request.call_flock fh owner flags) s o v = quiet s v _ _
  served-Stays (Request.call_getxattr path attr dest) s o v =
      refused (getxattr fs path attr dest) s v (ground (arith, v.stopped))
  served-Stays (Request.call_setxattr path attr bytes flags) s o v =
      refused (setxattr fs path attr bytes flags) s v (ground (arith, v.stopped))
  served-Stays (Request.call_listxattr path dest) s o v =
      refused (listxattr fs path dest) s v (ground (arith, v.stopped))
  served-Stays (Request.call_removexattr path attr) s o v =
      refused (removexattr fs path attr) s v (ground (arith, v.stopped))
  served-Stays (Request.call_unmount server order) s o v = absurd (cc o)

  pub run-Ended :
      (rs : List (Request World)) (s : FuseFs World File)
      → any is_unmount rs ≡ false
      → Ended w s
      → Ended w (run fs rs s)
  unfolding run
  run-Ended [] s o v = v
  run-Ended (r ∷ rs) s o v =
      run-Ended rs (serve fs r s) (ground arith) (served-Stays r s (ground arith) v)
