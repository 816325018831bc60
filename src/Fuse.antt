-- ===== src/Fuse.antt =====
-- fuse.go: the mounted filesystem's state, and the parts that its handlers are made of. What the
-- adapter calls, an absfs.FileSystem, is a record of operations on a state of its own.
use fusefs.Common.{ℕ, String, Bool, false, List, Option, none, some, if◌then◌else◌}
use fusefs.Absfs.{FileInfo, Outcome, ok, fail}
use fusefs.Errno.{enotconn}
use fusefs.Errors.{GoError, map_error}
use fusefs.Inodes.{InodeManager, new_inode_manager}
use fusefs.Handles.{HandleTracker, new_handle_tracker, count}
use fusefs.Inodes
use fusefs.Locks.{LockManager, new_lock_manager}
use fusefs.Stats.{
  StatsCollector, new_stats_collector, record_operation, record_error, Stats, snapshot,
}
use fusefs.Options.{MountOptions}

-- A call that returns an error, or nil.
abbrev pub Status : Type 0 → Type 0
Status World = World → World × Option GoError

-- A call that returns a value and an error.
abbrev pub Call : Type 0 → Type 0 → Type 0
Call World A = World → World × Outcome A

-- The interface XAttrFS of xattr.go. Names and values are lists of bytes.
pub record XattrFs (World : Type 0) : Type 0 where
  pub get_xattr : String → List ℕ → Call World (List ℕ)
  pub set_xattr : String → List ℕ → List ℕ → ℕ → Status World
  pub list_xattr : String → Call World (List (List ℕ))
  pub remove_xattr : String → List ℕ → Status World

-- The results of StatFS, in the order of statfs.go. Statfs fills Bsize and Frsize with
-- `block_size`.
pub record FsStats : Type 0 where
  pub total : ℕ
  pub free : ℕ
  pub avail : ℕ
  pub total_inodes : ℕ
  pub free_inodes : ℕ
  pub block_size : ℕ
  pub name_max : ℕ

-- absfs.FileSystem, and the interfaces that a filesystem or one of its files may also have: `none`
-- is a failed type assertion. `join` is path.Join of two parts, and `open_dir` is Open. A read
-- gives the bytes that were read beside the error. Where the code passes an int64 made from a
-- uint64, the number is passed, and from 2 ^ 63 on it stands for a negative one.
pub record FileSystem (World File : Type 0) : Type 0 where
  pub join : String → String → String
  pub stat : String → Call World FileInfo
  pub open_file : String → ℕ → ℕ → Call World File
  pub open_dir : String → Call World File
  pub read_dir : File → Call World (List FileInfo)
  pub mkdir : String → ℕ → Status World
  pub remove : String → Status World
  pub rename : String → String → Status World
  pub chtimes : String → ℕ → ℕ → Status World
  pub close : File → Status World
  pub read : File → ℕ → World → World × List ℕ × Option GoError
  pub write : File → List ℕ → World → World × ℕ × Option GoError
  pub file_stat : File → Call World FileInfo
  pub seek : File → Option (ℕ → Status World)
  pub sync : File → Option (Status World)
  pub truncate : File → Option (ℕ → Status World)
  pub allocate : File → Option (ℕ → ℕ → Status World)
  pub chmod : Option (String → ℕ → Status World)
  pub symlink : Option (String → String → Status World)
  pub lstat : Option (String → Call World FileInfo)
  pub link : Option (String → String → Status World)
  pub read_link : Option (String → Call World (List ℕ))
  pub xattrs : Option (XattrFs World)
  pub stat_fs : Option (Call World FsStats)
  pub getuid : ℕ
  pub getgid : ℕ

pub record FuseFs (World File : Type 0) : Type 0 where
  pub world : World
  pub opts : MountOptions
  pub inode_manager : InodeManager
  pub handle_tracker : HandleTracker File
  pub lock_manager : LockManager
  pub stats : StatsCollector
  pub unmounting : Bool

module _ {World File : Type 0} where
  -- `FuseFS.Stats`
  unfoldable pub stats_of : FuseFs World File → Stats
  stats_of s = record (snapshot s.stats) {
    mountpoint = s.opts.mountpoint;
    open_files = count s.handle_tracker;
    inode_stats = Inodes.stats s.inode_manager;
  }

-- What a handler answers: its result with errno 0, or the errno that it returns early with. That
-- may be 0 too, where mapError makes it so.
pub data Reply (A : Type 0) : Type 0 where
  done : A → Reply A
  errno : ℕ → Reply A

module _ {World File : Type 0} where
  unfoldable pub new_fuse_fs : World → MountOptions → FuseFs World File
  new_fuse_fs w opts = record {
    world = w;
    opts = opts;
    inode_manager =
        new_inode_manager opts.max_cached_inodes opts.max_cached_dirs opts.attr_cache_ttl
          opts.dir_cache_ttl;
    handle_tracker = new_handle_tracker;
    lock_manager = new_lock_manager;
    stats = new_stats_collector;
    unmounting = false;
  }

abbrev pub Handler : Type 0 → Type 0 → Type 0 → Type 0
Handler World File A = FuseFs World File → Reply A × FuseFs World File

module _ {World File A : Type 0} where
  abbrev pub pure : A → Handler World File A
  pure a s = (done a, s)

  abbrev pub return_errno : ℕ → Handler World File A
  return_errno n s = (errno n, s)

  infixl 5 ◌>>=◌ ◌>>◌
  abbrev pub ◌>>=◌ :
      {B : Type 0} → Handler World File A → (A → Handler World File B) → Handler World File B
  ◌>>=◌ m f s = elim (m s).0 [ done a ↦ f a (m s).1 | errno n ↦ (errno n, (m s).1) ]

  abbrev pub ◌>>◌ : Handler World File (Unit {0}) → Handler World File A → Handler World File A
  ◌>>◌ m k s = elim (m s).0 [ done _ ↦ k (m s).1 | errno n ↦ (errno n, (m s).1) ]

module _ {World File : Type 0} where
  -- `stats.recordOperation()`
  unfoldable pub count_operation : Handler World File (Unit {0})
  count_operation s = (done tt, record s { stats = record_operation s.stats })

  -- `stats.recordError()`
  unfoldable pub count_error : Handler World File (Unit {0})
  count_error s = (done tt, record s { stats = record_error s.stats })

  -- `if checkUnmounting() { return ENOTCONN }`
  unfoldable pub check_mounted : Handler World File (Unit {0})
  check_mounted s = (if s.unmounting then errno enotconn else done tt, s)

  -- `stats.recordError(); return mapError(err)`
  unfoldable pub give_up : {A : Type 0} → GoError → Handler World File A
  give_up err s = (errno (map_error (some err)), record s { stats = record_error s.stats })

  -- A call of the filesystem, and the return of its error if it has one.
  unfoldable pub attempt : {A : Type 0} → Call World A → Handler World File A
  attempt call s =
      let (w, result) = call s.world in
      elim result [
        | ok a ↦ (done a, record s { world = w })
        | fail err ↦ give_up err (record s { world = w })
      ]

  unfoldable pub attempt_status : Status World → Handler World File (Unit {0})
  attempt_status call s =
      let (w, result) = call s.world in
      elim result [
        | none ↦ (done tt, record s { world = w })
        | some err ↦ give_up err (record s { world = w })
      ]

  -- A call whose error is not looked at.
  unfoldable pub ignore_status : Status World → Handler World File (Unit {0})
  ignore_status call s = (done tt, record s { world = (call s.world).0 })

  unfoldable pub read_state : Handler World File (FuseFs World File)
  read_state s = (done s, s)

  -- A method of the inode manager with a result, and one without.
  unfoldable pub with_inodes :
      {A : Type 0} → (InodeManager → InodeManager × A) → Handler World File A
  with_inodes f s = let (im, a) = f s.inode_manager in (done a, record s { inode_manager = im })

  unfoldable pub on_inodes : (InodeManager → InodeManager) → Handler World File (Unit {0})
  on_inodes f s = (done tt, record s { inode_manager = f s.inode_manager })

  -- A failed type assertion returns an errno, with no error counted.
  unfoldable pub require : {A : Type 0} → Option A → ℕ → Handler World File A
  require none n s = (errno n, s)
  require (some a) n s = (done a, s)
