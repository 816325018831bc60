-- ===== src/Operations/Entries.antt =====
-- operations.go: the handlers that look a child up or make one (Lookup, Create, Mkdir, Symlink,
-- Link). `dir` is the path of the node.
use fusefs.Common.{ℕ, String, Option, none, some, if◌then◌else◌}
use fusefs.Absfs.{FileInfo, ok, fail}
use fusefs.Errno.{einval, enotsup}
use fusefs.Fuse.{
  FileSystem, Handler, pure, ◌>>=◌, ◌>>◌, count_operation, check_mounted, attempt, attempt_status,
  read_state, with_inodes, on_inodes, require, Call, done, give_up,
}
use fusefs.Inodes.{get_inode, invalidate_dir}
use fusefs.Handles.{add}
use fusefs.Operations.{
  EntryOut, Child, s_ifreg, s_ifdir, s_iflnk, o_create, fill_attr, map_open_flags, bit_or,
}

-- fuseFileHandle: the node's path and the handle.
pub record FileHandle : Type 0 where
  pub path : String
  pub handle : ℕ

-- `if info.IsDir() { mode = S_IFDIR }`
abbrev pub node_mode : FileInfo → ℕ
node_mode info = if info.is_dir then s_ifdir else s_ifreg

module _ {World File : Type 0} (fs : FileSystem World File) where
  abbrev H : Type 0 → Type 0
  H A = Handler World File A

  -- Inode, attributes, timeouts and NewInode: the end of all five handlers.
  unfoldable pub finish_entry : String → FileInfo → ℕ → H (Child × EntryOut)
  finish_entry full_path info mode = do
    ino ← with_inodes (λ im. get_inode im full_path info)
    s ← read_state
    pure (
      record { path = full_path; mode = mode; ino = ino },
      record {
        attr = fill_attr fs s.opts info ino;
        entry_timeout = s.opts.entry_timeout;
        attr_timeout = s.opts.attr_timeout;
      },
    )

  unfoldable pub look_up : String → String → H (Child × EntryOut)
  look_up dir name = do
    count_operation
    check_mounted
    let full_path = fs.join dir name
    info ← attempt (fs.stat full_path)
    finish_entry full_path info (node_mode info)

  unfoldable pub mkdir : String → String → ℕ → H (Child × EntryOut)
  mkdir dir name mode = do
    count_operation
    check_mounted
    let full_path = fs.join dir name
    attempt_status (fs.mkdir full_path mode)
    on_inodes (λ im. invalidate_dir im dir)
    info ← attempt (fs.stat full_path)
    finish_entry full_path info s_ifdir

  -- The stat of a file that was just created: if it fails the file is closed, and the error of
  -- the close is not looked at.
  unfoldable pub stat_created : String → File → H FileInfo
  stat_created full_path file s =
      let (w, result) = fs.stat full_path s.world in
      elim result [
        | ok info ↦ (done info, record s { world = w })
        | fail err ↦ give_up err (record s { world = (fs.close file w).0 })
      ]

  unfoldable pub add_handle : File → ℕ → String → H FileHandle
  add_handle file flags path s =
      let (ht, fh) = add s.handle_tracker file flags path in
      (done (record { path = path; handle = fh }), record s { handle_tracker = ht })

  unfoldable pub create : String → String → ℕ → ℕ → H (Child × EntryOut × FileHandle)
  create dir name flags mode = do
    count_operation
    check_mounted
    let full_path = fs.join dir name
    let abs_flags = bit_or (map_open_flags flags) o_create
    file ← attempt (fs.open_file full_path abs_flags mode)
    on_inodes (λ im. invalidate_dir im dir)
    info ← stat_created full_path file
    (child, out) ← finish_entry full_path info s_ifreg
    fh ← add_handle file abs_flags full_path
    pure (child, out, fh)

  -- `Lstat` if the filesystem has it, else `Stat`
  unfoldable pub stat_link : String → Call World FileInfo
  stat_link path = elim fs.lstat [ none ↦ fs.stat path | some lstat ↦ lstat path ]

  unfoldable pub symlink : String → String → String → H (Child × EntryOut)
  symlink dir target name = do
    count_operation
    check_mounted
    let full_path = fs.join dir name
    symlink_fs ← require fs.symlink enotsup
    attempt_status (symlink_fs target full_path)
    on_inodes (λ im. invalidate_dir im dir)
    info ← attempt (stat_link full_path)
    finish_entry full_path info s_iflnk

  -- The target is `none` if it is not a fuseNode, else its path.
  unfoldable pub link : String → Option String → String → H (Child × EntryOut)
  link dir target name = do
    count_operation
    check_mounted
    target_path ← require target einval
    let new_path = fs.join dir name
    link_fs ← require fs.link enotsup
    attempt_status (link_fs target_path new_path)
    on_inodes (λ im. invalidate_dir im dir)
    info ← attempt (fs.stat new_path)
    finish_entry new_path info s_ifreg
