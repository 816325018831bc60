-- ===== src/Basic.antt =====
-- examples/basic/osfs.go: a filesystem over the os package, for the files beneath a directory. What
-- it calls of that package is a record of operations; `join` is path.Join.
pub mod Paths
pub mod Program
pub mod Ending
mod Examples
use fusefs.Common.{ℕ, String, List, Option, none, some, ite}
use fusefs.Common.Keys.{string_discrete}
use Prim.Native.String.{◌++◌ as ◌<>◌}
use fusefs.Absfs.{FileInfo, Outcome, ok, fail}
use fusefs.Errors.{GoError}
use fusefs.Fuse.{FileSystem, Status, Call}

-- The functions of package os, in the order of osfs.go, and then the methods of an os.File. An
-- fs.DirEntry is its name.
pub record OsPackage (World File : Type 0) : Type 0 where
  pub open_file : String → ℕ → ℕ → Call World File
  pub mkdir : String → ℕ → Status World
  pub remove : String → Status World
  pub rename : String → String → Status World
  pub stat : String → Call World FileInfo
  pub chmod : String → ℕ → Status World
  pub chtimes : String → ℕ → ℕ → Status World
  pub chown : String → ℕ → ℕ → Status World
  pub read_dir : String → Call World (List String)
  pub read_file : String → Call World (List ℕ)
  pub chdir : String → Status World
  pub getwd : Call World String
  pub temp_dir : World → String
  pub open_path : String → Call World File
  pub create : String → Call World File
  pub mkdir_all : String → ℕ → Status World
  pub remove_all : String → Status World
  pub truncate : String → ℕ → Status World
  pub close : File → Status World
  pub file_read : File → ℕ → World → World × List ℕ × Option GoError
  pub file_write : File → List ℕ → World → World × ℕ × Option GoError
  pub file_stat : File → Call World FileInfo
  pub file_readdir : File → Call World (List FileInfo)
  pub seek : File → ℕ → Status World
  pub sync : File → Status World
  pub file_truncate : File → ℕ → Status World
  pub join : String → String → String
  pub getuid : ℕ
  pub getgid : ℕ

pub record OsFs : Type 0 where
  pub root : String

unfoldable pub new_os_fs : String → OsFs
new_os_fs root = record { root = root }

unfoldable pub path : OsFs → String → String
path fs name = ite (string_discrete fs.root "") name (
    ite (string_discrete fs.root "/") name
      (ite (string_discrete name "/") fs.root (fs.root <> name)))

module _ {World File : Type 0} (os : OsPackage World File) (fs : OsFs) where
  unfoldable pub open_file : String → ℕ → ℕ → Call World File
  open_file name flag perm = os.open_file (path fs name) flag perm

  unfoldable pub mkdir : String → ℕ → Status World
  mkdir name perm = os.mkdir (path fs name) perm

  unfoldable pub remove : String → Status World
  remove name = os.remove (path fs name)

  unfoldable pub rename : String → String → Status World
  rename oldpath newpath = os.rename (path fs oldpath) (path fs newpath)

  unfoldable pub stat : String → Call World FileInfo
  stat name = os.stat (path fs name)

  unfoldable pub chmod : String → ℕ → Status World
  chmod name mode = os.chmod (path fs name) mode

  unfoldable pub chtimes : String → ℕ → ℕ → Status World
  chtimes name atime mtime = os.chtimes (path fs name) atime mtime

  unfoldable pub chown : String → ℕ → ℕ → Status World
  chown name uid gid = os.chown (path fs name) uid gid

  unfoldable pub read_dir : String → Call World (List String)
  read_dir name = os.read_dir (path fs name)

  unfoldable pub read_file : String → Call World (List ℕ)
  read_file name = os.read_file (path fs name)

  unfoldable pub chdir : String → Status World
  chdir dir = os.chdir (path fs dir)

  unfoldable pub getwd : Call World String
  getwd = os.getwd

  unfoldable pub temp_dir : World → String
  temp_dir = os.temp_dir

  unfoldable pub open_path : String → Call World File
  open_path name = os.open_path (path fs name)

  unfoldable pub create : String → Call World File
  create name = os.create (path fs name)

  unfoldable pub mkdir_all : String → ℕ → Status World
  mkdir_all name perm = os.mkdir_all (path fs name) perm

  unfoldable pub remove_all : String → Status World
  remove_all name = os.remove_all (path fs name)

  unfoldable pub truncate : String → ℕ → Status World
  truncate name size = os.truncate (path fs name) size

  -- Sub, where `sub` is the Sub of what absfs.ExtendFiler makes of a filesystem.
  unfoldable pub sub_filer : {Filer : Type 0} → (OsFs → String → Filer) → String → Filer
  sub_filer sub dir = sub (record { root = path fs dir }) dir

  -- What the adapter finds when it is given an osFS: of the optional interfaces, Chmod; and an
  -- os.File has Seek, Sync and Truncate.
  unfoldable pub file_system : FileSystem World File
  file_system = record {
    join = os.join;
    stat = stat;
    open_file = open_file;
    open_dir = open_path;
    read_dir = os.file_readdir;
    mkdir = mkdir;
    remove = remove;
    rename = rename;
    chtimes = chtimes;
    close = os.close;
    read = os.file_read;
    write = os.file_write;
    file_stat = os.file_stat;
    seek = λ file. some (os.seek file);
    sync = λ file. some (os.sync file);
    truncate = λ file. some (os.file_truncate file);
    allocate = λ file. none;
    chmod = some chmod;
    symlink = none;
    lstat = none;
    link = none;
    read_link = none;
    xattrs = none;
    stat_fs = none;
    getuid = os.getuid;
    getgid = os.getgid;
  }
