-- ===== src/Session/Frames.antt =====
-- What every handler keeps, given that each operation on a store keeps it. A predicate may have a
-- budget, of which an allocation of an inode number or of a handle takes one.
pub mod Rules
pub mod Answered
pub mod Entries
pub mod Attributes
pub mod Directories
pub mod Files
pub mod Xattrs
pub mod Requests
use fusefs.Common.{ℕ, ◌≤◌, ◌<◌, String, List, true}
use fusefs.Absfs.{FileInfo, Attr, DirEntry}
use fusefs.Fuse.{FuseFs, FileSystem}
use fusefs.Stats.{StatsCollector}
use fusefs.Inodes.{
  get_inode, get_cached, cache, get_dir_cache, cache_dir, invalidate_dir, forget_numbers,
  clear_attrs, clear_dirs,
}
use fusefs.Handles.{add, close_all}
use fusefs.Handles
use fusefs.Operations.Answers.{AttrOf, ListingOf}
use fusefs.Locks.History.{Call, step}

-- The operations on the stores keep the predicate: one that allocates needs a larger budget
-- before; the state of the mounted filesystem and the counters do not matter.
pub record IsFrame {World File : Type 0} (fs : FileSystem World File)
    (P : ℕ → FuseFs World File → Type 0) : Type 0 where
  pub weaker : (b b' : ℕ) (s : FuseFs World File) → b ≤ b' → P b' s → P b s
  pub framed :
      (b : ℕ) (s : FuseFs World File) (w : World) (st : StatsCollector)
      → P b s
      → P b (record s { world = w; stats = st })
  pub names :
      (b b' : ℕ) (s : FuseFs World File) (path : String) (info : FileInfo)
      → b < b'
      → P b' s
      → P b (record s { inode_manager = (get_inode s.inode_manager path info).0 })
  pub recalls :
      (b : ℕ) (s : FuseFs World File) (now : ℕ) (path : String)
      → P b s
      → P b (record s { inode_manager = (get_cached s.inode_manager now path).0 })
  pub caches :
      (b : ℕ) (s : FuseFs World File) (now : ℕ) (path : String) (attr : Attr)
      → AttrOf fs s.opts path attr
      → P b s
      → P b (record s { inode_manager = cache s.inode_manager now path attr })
  pub recalls_dir :
      (b : ℕ) (s : FuseFs World File) (now : ℕ) (path : String)
      → P b s
      → P b (record s { inode_manager = (get_dir_cache s.inode_manager now path).0 })
  pub caches_dir :
      (b : ℕ) (s : FuseFs World File) (now : ℕ) (path : String) (entries : List DirEntry)
      → ListingOf fs path entries
      → P b s
      → P b (record s { inode_manager = cache_dir s.inode_manager now path entries })
  pub invalidates :
      (b : ℕ) (s : FuseFs World File) (path : String)
      → P b s
      → P b (record s { inode_manager = invalidate_dir s.inode_manager path })
  pub opens :
      (b b' : ℕ) (s : FuseFs World File) (file : File) (flags : ℕ) (path : String)
      → b < b'
      → P b' s
      → P b (record s { handle_tracker = (add s.handle_tracker file flags path).0 })
  pub releases :
      (b : ℕ) (s : FuseFs World File) (fh : ℕ)
      → P b s
      → P b (record s { handle_tracker = (Handles.release fs.close s.handle_tracker s.world fh).0 })
  pub locks :
      (b : ℕ) (s : FuseFs World File) (c : Call)
      → P b s
      → P b (record s { lock_manager = step s.lock_manager c })
  pub stops : (b : ℕ) (s : FuseFs World File) → P b s → P b (record s { unmounting = true })
  pub closes :
      (b : ℕ) (s : FuseFs World File) (order : List ℕ)
      → P b s
      → P b (record s { handle_tracker = (close_all fs.close order s.handle_tracker s.world).0 })
  pub forgets :
      (b : ℕ) (s : FuseFs World File)
      → P b s
      → P b (record s { inode_manager = forget_numbers s.inode_manager })
  pub clears_attrs :
      (b : ℕ) (s : FuseFs World File)
      → P b s
      → P b (record s { inode_manager = clear_attrs s.inode_manager })
  pub clears_dirs :
      (b : ℕ) (s : FuseFs World File)
      → P b s
      → P b (record s { inode_manager = clear_dirs s.inode_manager })
