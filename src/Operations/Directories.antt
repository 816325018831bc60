-- ===== src/Operations/Directories.antt =====
-- operations.go: the handlers Readdir, Unlink, Rmdir, Rename and Readlink. `path` is the path of
-- the node, and `now` the time of the call.
use fusefs.Common.{ℕ, String, List, [], ◌∷◌, Option, none, some}
use fusefs.Absfs.{FileInfo, DirEntry, ok, fail}
use fusefs.Errno.{einval, enotsup}
use fusefs.Fuse.{
  ◌>>=◌, ◌>>◌, attempt, count_operation, with_inodes, check_mounted, on_inodes, pure,
  attempt_status, require, FileSystem, Handler, done, give_up, FuseFs,
}
use fusefs.Inodes.{InodeManager, get_inode, cache_dir, get_dir_cache, invalidate_dir}
use fusefs.Operations.Entries.{node_mode}

module _ {World File : Type 0} (fs : FileSystem World File) where
  abbrev H : Type 0 → Type 0
  H A = Handler World File A

  -- The loop of Readdir: a number for the path of each entry.
  unfoldable pub fuse_entries : InodeManager → String → List FileInfo → InodeManager × List DirEntry
  fuse_entries im path [] = (im, [])
  fuse_entries im path (info ∷ infos) =
      let (im', ino) = get_inode im (fs.join path info.name) info in
      let (im'', entries) = fuse_entries im' path infos in
      (im'', record { name = info.name; ino = ino; mode = node_mode info } ∷ entries)

  -- `dir.Readdir(-1)`, and the deferred close, whose error is not looked at. The steps of Readdir
  -- between the two do not call the mounted filesystem.
  unfoldable pub read_and_close : File → H (List FileInfo)
  read_and_close dir s =
      let (w, result) = fs.read_dir dir s.world in
      let s' = record s { world = (fs.close dir w).0 } in
      elim result [ ok infos ↦ (done infos, s') | fail err ↦ give_up err s' ]

  -- The numbers of the entries, and the listing in the cache.
  unfoldable pub store_listing : ℕ → String → List FileInfo → H (List DirEntry)
  store_listing now path infos = do
    entries ← with_inodes (λ im. fuse_entries im path infos)
    on_inodes (λ im. cache_dir im now path entries)
    pure entries

  -- The end of Readdir, where the cache has nothing; `others` is what other goroutines do after
  -- the reading and before the rest.
  unfoldable pub fresh_entries :
      (FuseFs World File → FuseFs World File) → ℕ → String → H (List DirEntry)
  fresh_entries others now path = do
    dir ← attempt (fs.open_dir path)
    infos ← read_and_close dir
    λ t. store_listing now path infos (others t)

  unfoldable pub readdir_among :
      (FuseFs World File → FuseFs World File) → ℕ → String → H (List DirEntry)
  readdir_among others now path = do
    count_operation
    check_mounted
    cached ← with_inodes (λ im. get_dir_cache im now path)
    elim cached [ some entries ↦ pure entries | none ↦ fresh_entries others now path ]

  -- Readdir, with nothing between.
  unfoldable pub readdir : ℕ → String → H (List DirEntry)
  readdir now path = readdir_among (λ t. t) now path

  unfoldable pub unlink : String → String → H (Unit {0})
  unlink path name = do
    count_operation
    check_mounted
    attempt_status (fs.remove (fs.join path name))
    on_inodes (λ im. invalidate_dir im path)

  unfoldable pub rmdir : String → String → H (Unit {0})
  rmdir path name = do
    count_operation
    check_mounted
    attempt_status (fs.remove (fs.join path name))
    on_inodes (λ im. invalidate_dir im path)

  -- The new parent is `none` if it is not a fuseNode, else its path.
  unfoldable pub rename : String → String → Option String → String → H (Unit {0})
  rename path name new_parent new_name = do
    count_operation
    check_mounted
    let old_path = fs.join path name
    parent ← require new_parent einval
    attempt_status (fs.rename old_path (fs.join parent new_name))
    on_inodes (λ im. invalidate_dir im path)
    on_inodes (λ im. invalidate_dir im parent)

  unfoldable pub readlink : String → H (List ℕ)
  readlink path = do
    count_operation
    check_mounted
    read_link ← require fs.read_link enotsup
    attempt (read_link path)
