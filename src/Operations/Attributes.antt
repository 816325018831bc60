-- ===== src/Operations/Attributes.antt =====
-- operations.go, access.go and statfs.go: the handlers Getattr, Setattr, Access and Statfs. `path`
-- is the path of the node, and `now` the time of the call.
use fusefs.Common.{
  ℕ, String, Bool, true, false, ◌&&◌, not, Option, none, some, ◌==◌, if◌then◌else◌, ◌%◌, has_flag,
  ◌*◌, ◌/◌,
}
use fusefs.Absfs.{FileInfo}
use fusefs.Errno.{eacces, success}
use fusefs.Fuse.{
  ◌>>=◌, ◌>>◌, attempt, count_operation, read_state, with_inodes, check_mounted, on_inodes, require,
  return_errno, FileSystem, FsStats, Handler, pure, attempt_status, ignore_status,
}
use fusefs.Inodes.{get_inode, get_cached, cache}
use fusefs.Handles.{get}
use fusefs.Operations.{AttrOut, fill_attr}
use fusefs.Operations.Entries.{FileHandle}

-- fuse.SetAttrIn, by what GetSize, GetMode and GetMTime give.
pub record SetAttrIn : Type 0 where
  pub size : Option ℕ
  pub mode : Option ℕ
  pub mtime : Option ℕ

-- fuse.Caller
pub record Caller : Type 0 where
  pub uid : ℕ
  pub gid : ℕ

unfoldable pub is_owner : FileInfo → ℕ → Bool
is_owner info uid = elim info.sys [ none ↦ true | some stat ↦ stat.uid == uid ]

unfoldable pub is_group : FileInfo → ℕ → Bool
is_group info gid = elim info.sys [ none ↦ false | some stat ↦ stat.gid == gid ]

-- The three bits of the mode that the caller is checked against.
unfoldable pub check_perm : FileInfo → Caller → ℕ
check_perm info caller =
    let perm = info.mode % 512 in
    if is_owner info caller.uid
    then perm / 64 % 8
    else if is_group info caller.gid
    then perm / 8 % 8
    else perm % 8

-- `mask&bit != 0 && checkPerm&bit == 0`
unfoldable pub lacks : ℕ → ℕ → ℕ → Bool
lacks mask perm bit = has_flag mask bit && not (has_flag perm bit)

-- What Access answers when the file and the caller are known. The bits are R_OK, W_OK and X_OK.
unfoldable pub permitted : ℕ → FileInfo → Caller → ℕ
permitted mask info caller =
    let perm = check_perm info caller in
    if mask == 0
    then success
    else if lacks mask perm 4
    then eacces
    else if lacks mask perm 2
    then eacces
    else if lacks mask perm 1
    then eacces
    else success

-- The answers to StatFS of a filesystem that has no such method.
unfoldable pub default_stats : FsStats
default_stats = record {
  total = 1024 * 1024 * 1024;
  free = 1024 * 1024 * 1024;
  avail = 1024 * 1024 * 1024;
  total_inodes = 1024 * 1024;
  free_inodes = 1024 * 1024;
  block_size = 4096;
  name_max = 255;
}

module _ {World File : Type 0} (fs : FileSystem World File) where
  abbrev H : Type 0 → Type 0
  H A = Handler World File A

  -- The attributes, in the cache and as the result.
  unfoldable pub store_attr : ℕ → String → FileInfo → ℕ → H AttrOut
  store_attr now path info ino = do
    s ← read_state
    let attr = fill_attr fs s.opts info ino
    on_inodes (λ im. cache im now path attr)
    pure (record { attr = attr; timeout = s.opts.attr_timeout })

  -- The end of Getattr, where the cache has nothing.
  unfoldable pub fresh_attr : ℕ → String → H AttrOut
  fresh_attr now path = do
    info ← attempt (fs.stat path)
    ino ← with_inodes (λ im. get_inode im path info)
    store_attr now path info ino

  unfoldable pub getattr : ℕ → String → H AttrOut
  getattr now path = do
    count_operation
    check_mounted
    cached ← with_inodes (λ im. get_cached im now path)
    s ← read_state
    elim cached [
      | some attr ↦ pure (record { attr = attr; timeout = s.opts.attr_timeout })
      | none ↦ fresh_attr now path
    ]

  -- The tracked file of the handle, if there is a handle, it is open, and its file can truncate.
  unfoldable pub truncate_handle : Option FileHandle → ℕ → H (Unit {0})
  truncate_handle none size = pure tt
  truncate_handle (some fh) size = do
    s ← read_state
    elim (get s.handle_tracker fh.handle) [
      | none ↦ pure tt
      | some file ↦ elim (fs.truncate file) [
        | none ↦ pure tt
        | some call ↦ attempt_status (call size)
      ]
    ]

  unfoldable pub set_size : Option FileHandle → Option ℕ → H (Unit {0})
  set_size f none = pure tt
  set_size f (some size) = truncate_handle f size

  unfoldable pub set_mode : String → Option ℕ → H (Unit {0})
  set_mode path none = pure tt
  set_mode path (some mode) = elim fs.chmod [
    | none ↦ pure tt
    | some chmod ↦ attempt_status (chmod path mode)
  ]

  -- The error of Chtimes is not looked at.
  unfoldable pub set_time : String → Option ℕ → H (Unit {0})
  set_time path none = pure tt
  set_time path (some mtime) = ignore_status (fs.chtimes path mtime mtime)

  -- It ends in a call of Getattr, which counts the operation again and may answer from the cache.
  unfoldable pub setattr : ℕ → String → Option FileHandle → SetAttrIn → H AttrOut
  setattr now path f input = do
    count_operation
    check_mounted
    set_size f input.size
    set_mode path input.mode
    set_time path input.mtime
    getattr now path

  -- Access of a filesystem whose permissions the kernel does not check. The caller is `none` if the
  -- context has none.
  unfoldable pub check_access : String → Option Caller → ℕ → H (Unit {0})
  check_access path caller mask = do
    info ← attempt (fs.stat path)
    known ← require caller eacces
    return_errno (permitted mask info known)

  unfoldable pub access : String → Option Caller → ℕ → H (Unit {0})
  access path caller mask = do
    count_operation
    check_mounted
    s ← read_state
    (if s.opts.default_permissions then pure tt else check_access path caller mask)

  unfoldable pub statfs : H FsStats
  statfs = do
    count_operation
    check_mounted
    elim fs.stat_fs [ none ↦ pure default_stats | some call ↦ attempt call ]
