-- ===== src/Operations/Samples.antt =====
-- A small mounted filesystem and states of the adapter over it, for the tests. The filesystem counts
-- its calls; opening gives file 7, the name of every path is kept as it is, and no optional
-- interface is there but truncation.
use fusefs.Common.{ℕ, false, some, ◌+◌, ◌∷◌, [], none, length, true, List}
use fusefs.Common.Keys.{string_key, nat_key}
use Prim.Native.String.{◌++◌ as ◌<>◌}
use fusefs.Absfs.{FileInfo, ok, Attr, DirEntry}
use fusefs.Fuse.{FileSystem, FuseFs, new_fuse_fs}
use fusefs.Options.{default_mount_options}
use fusefs.Operations.Entries.{FileHandle}
use fusefs.Operations.Files.{open_node}
use fusefs.Operations.Attributes.{Caller, SetAttrIn, getattr}
use fusefs.Operations.{fill_attr}
use fusefs.Operations.Directories.{readdir}

abbrev pub info : FileInfo
info = record {
  name = "f";
  size = 3;
  mode = 0o640;
  mod_time = 5;
  is_dir = false;
  sys = some (record { uid = 1; gid = 2 });
}

abbrev pub small_fs : FileSystem ℕ ℕ
small_fs = record {
  join = λ dir name. dir <> "/" <> name;
  stat = λ path w. (w + 1, ok info);
  open_file = λ path flags mode w. (w + 1, ok 7);
  open_dir = λ path w. (w + 1, ok 8);
  read_dir = λ dir w. (w + 1, ok (info ∷ []));
  mkdir = λ path mode w. (w + 1, none);
  remove = λ path w. (w + 1, none);
  rename = λ old new w. (w + 1, none);
  chtimes = λ path a m w. (w + 1, none);
  close = λ file w. (w + 1, none);
  read = λ file size w. (w + 1, 65 ∷ [], none);
  write = λ file bytes w. (w + 1, length bytes, none);
  file_stat = λ file w. (w + 1, ok info);
  seek = λ file. none;
  sync = λ file. none;
  truncate = λ file. some (λ size w. (w + 1, none));
  allocate = λ file. none;
  chmod = none;
  symlink = none;
  lstat = none;
  link = none;
  read_link = none;
  xattrs = none;
  stat_fs = none;
  getuid = 10;
  getgid = 20;
}

abbrev pub start : FuseFs ℕ ℕ
start = new_fuse_fs 0 (default_mount_options "/mnt")

-- Handle 1 is open on "/f".
abbrev pub opened : FuseFs ℕ ℕ
opened = (open_node small_fs "/f" 2 start).1

abbrev pub handle : FileHandle
handle = record { path = "/f"; handle = 1 }

-- The attributes of "/f" are cached.
abbrev pub known : FuseFs ℕ ℕ
known = (getattr small_fs 100 "/f" start).1

abbrev pub attr : Attr
attr = fill_attr small_fs start.opts info 2

abbrev pub truncation : SetAttrIn
truncation = record { size = some 0; mode = none; mtime = none }

abbrev pub caller : Caller
caller = record { uid = 1; gid = 9 }

abbrev pub stopped : FuseFs ℕ ℕ
stopped = record start { unmounting = true }

-- The listing of "/" is cached.
abbrev pub listed : FuseFs ℕ ℕ
listed = (readdir small_fs 100 "/" start).1

abbrev pub entries : List DirEntry
entries = record { name = "f"; ino = 2; mode = 0o100000 } ∷ []
