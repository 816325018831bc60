-- ===== src/Session/Steps.antt =====
-- The steps that calls of several goroutines are made of: between two of them, a step of another
-- goroutine may come. Each is a method that holds the mutex of its store throughout, an atomic
-- store, or a change of the mounted filesystem or of the counters, which is not specified.
pub mod Atomic
pub mod Honest
pub mod Once
mod Examples
use fusefs.Common.{ℕ, ◌+◌, String, true, List, [], ◌∷◌, ◌≡◌}
use fusefs.Absfs.{FileInfo, Attr, DirEntry, ok}
use fusefs.Fuse.{FuseFs, FileSystem}
use fusefs.Stats.{StatsCollector}
use fusefs.Inodes.{
  get_inode, get_cached, cache, get_dir_cache, cache_dir, invalidate_dir, forget_numbers,
  clear_attrs, clear_dirs,
}
use fusefs.Handles.{add, close_all}
use fusefs.Handles
use fusefs.Operations.Answers.{ListingOf}
use fusefs.Locks.History.{Call}
use fusefs.Locks.History
use fusefs.Operations.{fill_attr}

-- What is put into a cache was answered by the mounted filesystem at some time.
pub data Step {World File : Type 0} (fs : FileSystem World File) : Type 0 where
  calls : (w : World) → Step fs
  counts : (st : StatsCollector) → Step fs
  names : (path : String) → (info : FileInfo) → Step fs
  recalls : (now : ℕ) → (path : String) → Step fs
  caches :
      (now : ℕ)
      → (path : String) → (before : World) → (info : FileInfo) → (ino : ℕ)
      → (answered : (fs.stat path before).1 ≡ ok info) → Step fs
  recalls_dir : (now : ℕ) → (path : String) → Step fs
  caches_dir :
      (now : ℕ)
      → (path : String) → (entries : List DirEntry) → (answered : ListingOf fs path entries)
      → Step fs
  invalidates : (path : String) → Step fs
  opens : (file : File) → (flags : ℕ) → (path : String) → Step fs
  releases : (fh : ℕ) → Step fs
  locks : (c : Call) → Step fs
  stops : Step fs
  closes : (order : List ℕ) → Step fs
  forgets : Step fs
  clears_attrs : Step fs
  clears_dirs : Step fs

module _ {World File : Type 0} (fs : FileSystem World File) where
  unfoldable pub take : Step fs → FuseFs World File → FuseFs World File
  take (calls w) s = record s { world = w }
  take (counts st) s = record s { stats = st }
  take (names path info) s = record s { inode_manager = (get_inode s.inode_manager path info).0 }
  take (recalls now path) s = record s { inode_manager = (get_cached s.inode_manager now path).0 }
  take (caches now path before info ino answered) s = record s {
    inode_manager = cache s.inode_manager now path (fill_attr fs s.opts info ino);
  }
  take (recalls_dir now path) s = record s {
    inode_manager = (get_dir_cache s.inode_manager now path).0;
  }
  take (caches_dir now path entries answered) s = record s {
    inode_manager = cache_dir s.inode_manager now path entries;
  }
  take (invalidates path) s = record s { inode_manager = invalidate_dir s.inode_manager path }
  take (opens file flags path) s = record s {
    handle_tracker = (add s.handle_tracker file flags path).0;
  }
  take (releases fh) s = record s {
    handle_tracker = (Handles.release fs.close s.handle_tracker s.world fh).0;
  }
  take (locks c) s = record s { lock_manager = History.step s.lock_manager c }
  take stops s = record s { unmounting = true }
  take (closes order) s = record s {
    handle_tracker = (close_all fs.close order s.handle_tracker s.world).0;
  }
  take forgets s = record s { inode_manager = forget_numbers s.inode_manager }
  take clears_attrs s = record s { inode_manager = clear_attrs s.inode_manager }
  take clears_dirs s = record s { inode_manager = clear_dirs s.inode_manager }

  unfoldable pub take_all : List (Step fs) → FuseFs World File → FuseFs World File
  take_all [] s = s
  take_all (x ∷ xs) s = take_all xs (take x s)

-- How many inode numbers or handles a step may allocate.
unfoldable pub allocates : {World File : Type 0} {fs : FileSystem World File} → Step fs → ℕ
allocates (Step.names path info) = 1
allocates (Step.opens file flags path) = 1
allocates _ = 0

unfoldable pub allocations : {World File : Type 0} {fs : FileSystem World File} → List (Step fs) → ℕ
allocations [] = 0
allocations (x ∷ xs) = allocates x + allocations xs
