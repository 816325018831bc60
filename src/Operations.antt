-- ===== src/Operations.antt =====
-- operations.go: what the handlers share, fillAttr and mapOpenFlags, and the results of go-fuse's
-- out parameters.
pub mod Flags
pub mod Entries
pub mod Attributes
pub mod Files
pub mod Directories
pub mod Xattrs
pub mod Unmounted
pub mod Access
pub mod Listing
pub mod Keeping
pub mod Staleness
pub mod Closing
pub mod Listings
pub mod Samples
pub mod Making
pub mod Linking
pub mod Numbering
pub mod Lookup
pub mod Caching
pub mod Answers
mod Examples
use Prim.Native.Nat.{bit_or}
use fusefs.Common.{ℕ, ◌+◌, ◌/◌, ◌%◌, ◌^◌, String, Bool, has_flag, ◌==◌, if◌then◌else◌}
use fusefs.Absfs.{FileInfo, Attr}
use fusefs.Fuse.{FileSystem}
use fusefs.Options.{MountOptions}

-- fuse.AttrOut and fuse.EntryOut
pub record AttrOut : Type 0 where
  pub attr : Attr
  pub timeout : ℕ

pub record EntryOut : Type 0 where
  pub attr : Attr
  pub entry_timeout : ℕ
  pub attr_timeout : ℕ

-- The child that NewInode is given: the node's path, and the StableAttr.
pub record Child : Type 0 where
  pub path : String
  pub mode : ℕ
  pub ino : ℕ

abbrev pub s_ifreg : ℕ
s_ifreg = 0o100000

abbrev pub s_ifdir : ℕ
s_ifdir = 0o040000

abbrev pub s_iflnk : ℕ
s_iflnk = 0o120000

abbrev pub o_rdonly : ℕ
o_rdonly = 0

abbrev pub o_wronly : ℕ
o_wronly = 1

abbrev pub o_rdwr : ℕ
o_rdwr = 2

abbrev pub o_create : ℕ
o_create = 0o100

abbrev pub o_excl : ℕ
o_excl = 0o200

abbrev pub o_trunc : ℕ
o_trunc = 0o1000

abbrev pub o_append : ℕ
o_append = 0o2000

unfoldable pub fill_attr :
    {World File : Type 0} → FileSystem World File → MountOptions → FileInfo → ℕ → Attr
fill_attr fs opts info ino = record {
  ino = ino;
  size = info.size % 2 ^ 64;
  mode = info.mode % 2 ^ 32;
  mtime = info.mod_time / 10 ^ 9;
  mtimensec = info.mod_time % 10 ^ 9;
  uid = if opts.uid == 0 then fs.getuid else opts.uid;
  gid = if opts.gid == 0 then fs.getgid else opts.gid;
  blocks = (info.size % 2 ^ 64 + 511) % 2 ^ 64 / 512;
  blksize = 4096;
}

-- `if flags&bit != 0 { absFlags |= bit }`
abbrev add_flag : ℕ → ℕ → ℕ → ℕ
add_flag flags bit abs_flags = if has_flag flags bit then bit_or abs_flags bit else abs_flags

abbrev access_mode : ℕ → ℕ
access_mode flags =
    if has_flag flags o_wronly
    then bit_or 0 o_wronly
    else if has_flag flags o_rdwr
    then bit_or 0 o_rdwr
    else bit_or 0 o_rdonly

-- The bits of syscall.O_* and of os.O_* are the same on Linux.
unfoldable pub map_open_flags : ℕ → ℕ
map_open_flags flags =
    add_flag flags o_excl (
      add_flag flags o_trunc
        (add_flag flags o_create (add_flag flags o_append (access_mode flags))))
