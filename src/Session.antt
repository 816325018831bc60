-- ===== src/Session.antt =====
-- The calls that go-fuse and the owner of a mount make, one after another: every handler, and
-- Unmount.
pub mod Frames
pub mod Steps
mod Examples
pub mod Sound
pub mod Reports
pub mod Races
pub mod Ended
use fusefs.Common.{ℕ, ◌+◌, String, List, [], ◌∷◌, Option, length}
use fusefs.Absfs.{DirEntry}
use fusefs.Fuse.{FileSystem, FuseFs, Reply, Status}
use fusefs.Locks.{FileLock}
use fusefs.Mount.{unmount}
use fusefs.Operations.Entries
use fusefs.Operations.Attributes
use fusefs.Operations.Directories
use fusefs.Operations.Files
use fusefs.Operations.Xattrs
use fusefs.Operations.Entries.{FileHandle}
use fusefs.Operations.Attributes.{SetAttrIn, Caller}

-- A call with its arguments. `path` is the path of the node, and `now` the time where the handler
-- reads the clock.
pub data Request (World : Type 0) : Type 0 where
  call_lookup : (path name : String) → Request World
  call_create : (path name : String) → (flags mode : ℕ) → Request World
  call_mkdir : (path name : String) → (mode : ℕ) → Request World
  call_symlink : (path target name : String) → Request World
  call_link : (path : String) → (target : Option String) → (name : String) → Request World
  call_getattr : (now : ℕ) → (path : String) → Request World
  call_setattr : (now : ℕ) → (path : String) → Option FileHandle → SetAttrIn → Request World
  call_access : (path : String) → Option Caller → (mask : ℕ) → Request World
  call_statfs : Request World
  call_readdir : (now : ℕ) → (path : String) → Request World
  call_unlink : (path name : String) → Request World
  call_rmdir : (path name : String) → Request World
  call_rename :
      (path name : String) → (parent : Option String) → (new_name : String) → Request World
  call_readlink : (path : String) → Request World
  call_open : (path : String) → (flags : ℕ) → Request World
  call_fsync : Option FileHandle → Request World
  call_read : FileHandle → (size off : ℕ) → Request World
  call_write : FileHandle → List ℕ → (off : ℕ) → Request World
  call_release : FileHandle → Request World
  call_flush : FileHandle → Request World
  call_allocate : FileHandle → (off size mode : ℕ) → Request World
  call_getlk : FileHandle → (owner : ℕ) → FileLock → Request World
  call_setlk : FileHandle → (owner : ℕ) → FileLock → Request World
  call_setlkw : FileHandle → (owner : ℕ) → FileLock → Request World
  call_flock : FileHandle → (owner flags : ℕ) → Request World
  call_getxattr : (path : String) → List ℕ → Option ℕ → Request World
  call_setxattr : (path : String) → List ℕ → List ℕ → (flags : ℕ) → Request World
  call_listxattr : (path : String) → Option ℕ → Request World
  call_removexattr : (path : String) → List ℕ → Request World
  call_unmount : Option (Status World) → (order : List ℕ) → Request World

-- How many entries Readdir answers with.
abbrev pub answered : Reply (List DirEntry) → ℕ
answered (Reply.done entries) = length entries
answered (Reply.errno n) = 0

module _ {World File : Type 0} (fs : FileSystem World File) where
  -- What a call leaves.
  unfoldable pub serve : Request World → FuseFs World File → FuseFs World File
  serve (call_lookup path name) s = (Entries.look_up fs path name s).1
  serve (call_create path name flags mode) s = (Entries.create fs path name flags mode s).1
  serve (call_mkdir path name mode) s = (Entries.mkdir fs path name mode s).1
  serve (call_symlink path target name) s = (Entries.symlink fs path target name s).1
  serve (call_link path target name) s = (Entries.link fs path target name s).1
  serve (call_getattr now path) s = (Attributes.getattr fs now path s).1
  serve (call_setattr now path f input) s = (Attributes.setattr fs now path f input s).1
  serve (call_access path caller mask) s = (Attributes.access fs path caller mask s).1
  serve call_statfs s = (Attributes.statfs fs s).1
  serve (call_readdir now path) s = (Directories.readdir fs now path s).1
  serve (call_unlink path name) s = (Directories.unlink fs path name s).1
  serve (call_rmdir path name) s = (Directories.rmdir fs path name s).1
  serve (call_rename path name parent new_name) s =
      (Directories.rename fs path name parent new_name s).1
  serve (call_readlink path) s = (Directories.readlink fs path s).1
  serve (call_open path flags) s = (Files.open_node fs path flags s).1
  serve (call_fsync f) s = (Files.fsync fs f s).1
  serve (call_read fh size off) s = (Files.read fs fh size off s).1
  serve (call_write fh bytes off) s = (Files.write fs fh bytes off s).1
  serve (call_release fh) s = (Files.release fs fh s).1
  serve (call_flush fh) s = (Files.flush fs fh s).1
  serve (call_allocate fh off size mode) s = (Files.allocate fs fh off size mode s).1
  serve (call_getlk fh owner lk) s = (Files.getlk fs fh owner lk s).1
  serve (call_setlk fh owner lk) s = (Files.setlk fs fh owner lk s).1
  serve (call_setlkw fh owner lk) s = (Files.setlkw fs fh owner lk s).1
  serve (call_flock fh owner flags) s = (Files.flock fs fh owner flags s).1
  serve (call_getxattr path attr dest) s = (Xattrs.getxattr fs path attr dest s).1
  serve (call_setxattr path attr bytes flags) s = (Xattrs.setxattr fs path attr bytes flags s).1
  serve (call_listxattr path dest) s = (Xattrs.listxattr fs path dest s).1
  serve (call_removexattr path attr) s = (Xattrs.removexattr fs path attr s).1
  serve (call_unmount server order) s = (unmount fs server order s).0

  unfoldable pub run : List (Request World) → FuseFs World File → FuseFs World File
  run [] s = s
  run (r ∷ rs) s = run rs (serve r s)

  -- No call allocates more inode numbers and handles than this.
  unfoldable pub cost : Request World → FuseFs World File → ℕ
  cost (call_readdir now path) s = answered (Directories.readdir fs now path s).0
  cost _ s = 2

  unfoldable pub total_cost : List (Request World) → FuseFs World File → ℕ
  total_cost [] s = 0
  total_cost (r ∷ rs) s = cost r s + total_cost rs (serve r s)
