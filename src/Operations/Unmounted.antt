-- ===== src/Operations/Unmounted.antt =====
-- What the handlers of nodes answer while the filesystem unmounts.
use fusefs.Fuse.{FileSystem, FuseFs, Handler, Reply, count_operation, check_mounted}
use fusefs.Operations.Entries.{look_up, mkdir, create, symlink, link, FileHandle}
use fusefs.Operations.Files.{open_node, fsync, open_among}
use fusefs.Operations.Attributes.{getattr, setattr, access, statfs, SetAttrIn, Caller}
use fusefs.Operations.Directories.{readdir, unlink, rmdir, rename, readlink, readdir_among}
use fusefs.Operations.Xattrs.{xattr_fs, getxattr, setxattr, listxattr, removexattr}
use fusefs.Common.{◌≡◌, ℕ, true, String, Option, List, arith}
use fusefs.Errno.{enotconn}
use fusefs.Stats.{record_operation}

-- ENOTCONN, and nothing but the count of the operation.
unfoldable pub Refuses : {World File A : Type 0} → Handler World File A → FuseFs World File → Type 0
Refuses h s = h s ≡ (Reply.errno enotconn, record s { stats = record_operation s.stats })

module _ {World File : Type 0} (fs : FileSystem World File) (s : FuseFs World File) where
  -- While the filesystem unmounts, each of the twenty handlers of nodes answers ENOTCONN and
  -- changes nothing but the count of operations, whatever its arguments are.
  pub node_handlers-Refuses :
      (now : ℕ) (path name target : String) (flags mode : ℕ) (parent : Option String)
      (f : Option FileHandle) (input : SetAttrIn) (caller : Option Caller) (bytes : List ℕ)
      (dest : Option ℕ)
      → s.unmounting ≡ true
      → Refuses (look_up fs path name) s
        × Refuses (getattr fs now path) s
        × Refuses (setattr fs now path f input) s
        × Refuses (open_node fs path flags) s
        × Refuses (readdir fs now path) s
        × Refuses (create fs path name flags mode) s
        × Refuses (mkdir fs path name mode) s
        × Refuses (unlink fs path name) s
        × Refuses (rmdir fs path name) s
        × Refuses (rename fs path name parent target) s
        × Refuses (symlink fs path target name) s
        × Refuses (link fs path parent name) s
        × Refuses (readlink fs path) s
        × Refuses (fsync fs f) s
        × Refuses (access fs path caller flags) s
        × Refuses (statfs fs) s
        × Refuses (getxattr fs path bytes dest) s
        × Refuses (setxattr fs path bytes bytes flags) s
        × Refuses (listxattr fs path dest) s
        × Refuses (removexattr fs path bytes) s
  unfolding Refuses count_operation check_mounted xattr_fs look_up getattr setattr open_node
      open_among readdir readdir_among create mkdir unlink rmdir rename symlink link readlink fsync
      access statfs getxattr setxattr listxattr removexattr
  node_handlers-Refuses now path name target flags mode parent f input caller bytes dest h = (
    ground arith,
    ground arith,
    ground arith,
    ground arith,
    ground arith,
    ground arith,
    ground arith,
    ground arith,
    ground arith,
    ground arith,
    ground arith,
    ground arith,
    ground arith,
    ground arith,
    ground arith,
    ground arith,
    ground arith,
    ground arith,
    ground arith,
    ground arith,
  )
