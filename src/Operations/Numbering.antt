-- ===== src/Operations/Numbering.antt =====
-- operations.go: the inode numbers that Readdir lists are those that the paths of the entries have.
use fusefs.Common.{
  ◌∙◌, ℕ, ◌+◌, ◌<◌, ◌^◌, ◌≡◌, ◌≢◌, String, false, List, [], ◌∷◌, none, All, length, arith, sym,
  refl, subst,
}
use fusefs.Absfs.{FileInfo, DirEntry, ok}
use fusefs.Fuse.{
  FileSystem, FuseFs, done, count_operation, check_mounted, attempt, with_inodes, on_inodes,
}
use fusefs.Inodes.{InodeManager, get_inode, get_dir_cache, cache_dir, is_same_file}
use fusefs.Inodes.Numbers.{
  caches-get_inode, IsValid, get_inode-IsValid, next_inode-get_inode, caches-IsValid,
}
use fusefs.Inodes.Stability.{Named, get_inode-Named, get_inode-Named_ne}
use fusefs.Operations.Directories.{
  fuse_entries, readdir, fresh_entries, read_and_close, store_listing, readdir_among,
}

-- The loop of Readdir leaves the cache of listings alone.
pub dir_cache-fuse_entries :
    {World File : Type 0} (fs : FileSystem World File) (im : InodeManager) (path : String)
    (infos : List FileInfo)
    → (fuse_entries fs im path infos).0.dir_cache ≡ im.dir_cache
unfolding fuse_entries
dir_cache-fuse_entries fs im path [] = refl
dir_cache-fuse_entries fs im path (info ∷ infos) =
    let name = fs.join path info.name in
    dir_cache-fuse_entries fs (get_inode im name info).0 path infos
    ∙ (caches-get_inode im name info).1

module _ {World File : Type 0} (fs : FileSystem World File) (path : String) where
  -- The path is that of none of the children.
  abbrev Misses : String → List FileInfo → Type 0
  Misses q infos = All (λ (info : FileInfo). q ≢ fs.join path info.name) infos

  -- The children have different paths.
  abbrev pub Apart : List FileInfo → Type 0
  Apart [] = Unit
  Apart (info ∷ infos) = Misses (fs.join path info.name) infos × Apart infos

  -- Each child has the number that the listing gives it.
  abbrev pub Listed : InodeManager → List FileInfo → List DirEntry → Type 0
  Listed im [] [] = Unit
  Listed im (info ∷ infos) (e ∷ es) =
      (e.name ≡ info.name) × Named im (fs.join path info.name) e.ino info × Listed im infos es
  Listed im _ _ = ⊥

  still-Named :
      (im : InodeManager) (infos : List FileInfo) (q : String) (info : FileInfo) (ino : ℕ)
      → IsValid im
      → im.next_inode + length infos < 2 ^ 64
      → Misses q infos
      → Named im q ino info
      → Named (fuse_entries fs im path infos).0 q ino info
  unfolding fuse_entries
  still-Named im [] q info ino v room m n = n
  still-Named im (other ∷ infos) q info ino v room m n =
      let child = fs.join path other.name in
      let small : im.next_inode + 1 < 2 ^ 64 = omega (arith, room) in
      let next = (get_inode im child other).0 in
      still-Named next infos q info ino (get_inode-IsValid im child other small v)
        (omega (arith, room, next_inode-get_inode im child other)) m.1
        (get_inode-Named_ne im q child info other ino v small m.0 n)

  fuse_entries-Listed :
      (im : InodeManager) (infos : List FileInfo)
      → IsValid im
      → im.next_inode + length infos < 2 ^ 64
      → Apart infos
      → Listed (fuse_entries fs im path infos).0 infos (fuse_entries fs im path infos).1
  unfolding fuse_entries
  fuse_entries-Listed im [] v room a = tt
  fuse_entries-Listed im (info ∷ infos) v room a =
      let child = fs.join path info.name in
      let (next, ino) = get_inode im child info in
      let v' = get_inode-IsValid im child info (omega (arith, room)) v in
      let room' : (get_inode im child info).0.next_inode + length infos < 2 ^ 64 =
        omega (arith, room, next_inode-get_inode im child info) in
      (
        refl,
        still-Named next infos child info ino v' room' a.0 (get_inode-Named im child info),
        fuse_entries-Listed next infos v' room' a.1,
      )

  cached-Listed :
      (im : InodeManager) (infos : List FileInfo) (es entries : List DirEntry) (now : ℕ)
      → Listed im infos es
      → Listed (cache_dir im now path entries) infos es
  unfolding cache_dir Named is_same_file
  cached-Listed im [] [] entries now l = tt
  cached-Listed im [] (e ∷ es) entries now l = l
  cached-Listed im (info ∷ infos) [] entries now l = l
  cached-Listed im (info ∷ infos) (e ∷ es) entries now l =
      (l.0, l.1, cached-Listed im infos es entries now l.2)

  module _ (s : FuseFs World File) (now : ℕ) (infos : List FileInfo) where
    -- The manager that the loop of Readdir starts from, and what the loop leaves and lists.
    abbrev asked : InodeManager
    asked = (get_dir_cache s.inode_manager now path).0

    abbrev loop : InodeManager × List DirEntry
    loop = fuse_entries fs asked path infos

    asked-IsValid : IsValid s.inode_manager → IsValid asked
    unfolding get_dir_cache
    asked-IsValid v = caches-IsValid s.inode_manager s.inode_manager.attr_cache _ v

    fresh_listing :
        {w w' : World} {dir : File}
        → s.unmounting ≡ false
        → (get_dir_cache s.inode_manager now path).1 ≡ none
        → fs.open_dir path s.world ≡ (w, ok dir)
        → fs.read_dir dir w ≡ (w', ok infos)
        → ((readdir fs now path s).0 ≡ done loop.1)
          × ((readdir fs now path s).1.inode_manager ≡ cache_dir loop.0 now path loop.1)
    unfolding readdir readdir_among fresh_entries read_and_close store_listing count_operation
        check_mounted attempt with_inodes on_inodes
    fresh_listing m c o r = (ground arith, ground arith)

    -- A Readdir that the mounted filesystem answers, with nothing cached and while it is not
    -- unmounting, lists the names in their order, each with the number that its path has
    -- afterwards, with the metadata of the child. The children have different paths, the inode
    -- manager is valid and its counter has room for them.
    pub readdir-Listed :
        {w w' : World} {dir : File}
        → s.unmounting ≡ false
        → (get_dir_cache s.inode_manager now path).1 ≡ none
        → fs.open_dir path s.world ≡ (w, ok dir)
        → fs.read_dir dir w ≡ (w', ok infos)
        → IsValid s.inode_manager
        → s.inode_manager.next_inode + length infos < 2 ^ 64
        → Apart infos
        → (entries : List DirEntry) × ((readdir fs now path s).0 ≡ done entries)
          × Listed (readdir fs now path s).1.inode_manager infos entries
    readdir-Listed m c o r v room a =
        let (answer, left) = fresh_listing m c o r in
        let l =
          fuse_entries-Listed asked infos (asked-IsValid v) (unfold get_dir_cache in room) a in
        (
          loop.1,
          answer,
          subst (λ im. Listed im infos loop.1) (sym left)
              (cached-Listed loop.0 infos loop.1 loop.1 now l),
        )
