-- ===== src/Operations/Making.antt =====
-- operations.go: what the handlers that make names leave behind when they fail, and when they succeed.
use fusefs.Common.{
  ℕ, String, ◌≡◌, Option, none, some, arith, inl, inr, List, Option-cases, if◌then◌else◌,
}
use fusefs.Absfs.{FileInfo, DirEntry, ok, Outcome-cases, fail}
use fusefs.Fuse.{
  FileSystem, FuseFs, done, errno, count_operation, check_mounted, attempt, attempt_status, require,
  on_inodes, with_inodes, read_state, give_up,
}
use fusefs.Common.Keys.{string_key}
use fusefs.Inodes.Numbers.{caches-get_inode}
use fusefs.Cache.{LruCache}
use fusefs.Inodes.{InodeManager, get_inode, invalidate_dir, get_dir_cache}
use fusefs.Cache.Agreement.{Agrees}
use fusefs.Operations.Listings.{Unlisted, invalidated}
use fusefs.Operations.{map_open_flags, bit_or, o_create, Child, EntryOut}
use fusefs.Operations.Entries.{
  mkdir, create, symlink, link, stat_link, stat_created, finish_entry, add_handle, FileHandle,
}

module _ {World File : Type 0} (fs : FileSystem World File) (s : FuseFs World File)
    (dir name : String) (flags mode : ℕ) where
  -- A Create that answers an errno leaves the handles as they were, and the last that it asks the
  -- mounted filesystem is to close the file, after the Stat, if it opened one, and else the
  -- opening, or nothing while it unmounts.
  pub create_errno :
      (n : ℕ)
      → (create fs dir name flags mode s).0 ≡ errno n
      → let full_path = fs.join dir name in
        let (w, opening) =
          fs.open_file full_path (bit_or (map_open_flags flags) o_create) mode s.world in
        let t = (create fs dir name flags mode s).1 in
        (t.handle_tracker ≡ s.handle_tracker)
        × (t.world ≡ (
            if s.unmounting then s.world else elim opening [
              | fail err ↦ w
              | ok file ↦ (fs.close file (fs.stat full_path w).0).0
            ]))
  unfolding create stat_created finish_entry add_handle count_operation check_mounted attempt
      on_inodes with_inodes read_state give_up
  create_errno n h =
      let full_path = fs.join dir name in
      let opening = fs.open_file full_path (bit_or (map_open_flags flags) o_create) mode s.world in
      (
        ground arith,
        elim (Outcome-cases opening.1) [
          | inl (file, o) ↦ elim (Outcome-cases (fs.stat full_path opening.0).1) [
            | inl (info, e) ↦ ground arith
            | inr (err, e) ↦ ground arith
          ]
          | inr (err, o) ↦ ground arith
        ],
      )

module _ {World File : Type 0} (fs : FileSystem World File) (s : FuseFs World File)
    (dir name : String) where
  -- The cache of listings after the parent's is forgotten.
  abbrev forgotten : LruCache (List DirEntry)
  forgotten = (invalidate_dir s.inode_manager dir).dir_cache

  kept_listings :
      (info : FileInfo)
      → (get_inode (invalidate_dir s.inode_manager dir) (fs.join dir name) info).0.dir_cache
        ≡ forgotten
  kept_listings info =
      (caches-get_inode (invalidate_dir s.inode_manager dir) (fs.join dir name) info).1

  mkdir-dir_cache :
      (mode : ℕ) {r : Child × EntryOut}
      → (mkdir fs dir name mode s).0 ≡ done r
      → (mkdir fs dir name mode s).1.inode_manager.dir_cache ≡ forgotten
  unfolding mkdir finish_entry count_operation check_mounted attempt attempt_status on_inodes
      with_inodes read_state give_up
  mkdir-dir_cache mode {r} h =
      let full_path = fs.join dir name in
      elim (Outcome-cases (fs.stat full_path (fs.mkdir full_path mode s.world).0).1) [
        | inl (info, e) ↦ ground (arith, kept_listings info)
        | inr (err, e) ↦ ground arith
      ]

  create-dir_cache :
      (flags mode : ℕ) {r : Child × EntryOut × FileHandle}
      → (create fs dir name flags mode s).0 ≡ done r
      → (create fs dir name flags mode s).1.inode_manager.dir_cache ≡ forgotten
  unfolding create stat_created finish_entry add_handle count_operation check_mounted attempt
      on_inodes with_inodes read_state give_up
  create-dir_cache flags mode {r} h =
      let full_path = fs.join dir name in
      let opened = fs.open_file full_path (bit_or (map_open_flags flags) o_create) mode s.world in
      elim (Outcome-cases (fs.stat full_path opened.0).1) [
        | inl (info, e) ↦ ground (arith, kept_listings info)
        | inr (err, e) ↦ ground arith
      ]

  symlink-dir_cache :
      (target : String) {r : Child × EntryOut}
      → (symlink fs dir target name s).0 ≡ done r
      → (symlink fs dir target name s).1.inode_manager.dir_cache ≡ forgotten
  unfolding symlink stat_link finish_entry count_operation check_mounted attempt attempt_status
      on_inodes with_inodes read_state give_up require
  symlink-dir_cache target {r} h = elim (Option-cases fs.symlink) [
    | inl e ↦ ground arith
    | inr (call, e) ↦
        let full_path = fs.join dir name in
        elim (Outcome-cases (stat_link fs full_path (call target full_path s.world).0).1) [
          | inl (info, e') ↦ ground (arith, kept_listings info)
          | inr (err, e') ↦ ground arith
        ]
  ]

  link-dir_cache :
      (target : Option String) {r : Child × EntryOut}
      → (link fs dir target name s).0 ≡ done r
      → (link fs dir target name s).1.inode_manager.dir_cache ≡ forgotten
  unfolding link finish_entry count_operation check_mounted attempt attempt_status on_inodes
      with_inodes read_state give_up require
  link-dir_cache none {r} h = ground arith
  link-dir_cache (some target) {r} h = elim (Option-cases fs.link) [
    | inl e ↦ ground arith
    | inr (call, e) ↦
        let full_path = fs.join dir name in
        elim (Outcome-cases (fs.stat full_path (call target full_path s.world).0).1) [
          | inl (info, e') ↦ ground (arith, kept_listings info)
          | inr (err, e') ↦ ground arith
        ]
  ]

  unlisted :
      (im : InodeManager)
      → Agrees s.inode_manager.dir_cache
      → im.dir_cache ≡ forgotten
      → Unlisted im dir
  unfolding Unlisted get_dir_cache
  unlisted im a e now =
      rw e (unfold Unlisted get_dir_cache in invalidated s.inode_manager dir a now)

  -- If a Mkdir, Create, Symlink or Link gives its result, then no listing of the directory is
  -- cached after it, whatever was cached before, where the cache's map and list agree.
  pub made-Unlisted :
      (target : String) (other : Option String) (flags mode : ℕ)
      → Agrees s.inode_manager.dir_cache
      → let r1 = mkdir fs dir name mode s in
        let r2 = create fs dir name flags mode s in
        let r3 = symlink fs dir target name s in
        let r4 = link fs dir other name s in
        ((x : Child × EntryOut) → r1.0 ≡ done x → Unlisted r1.1.inode_manager dir)
        × ((x : Child × EntryOut × FileHandle) → r2.0 ≡ done x → Unlisted r2.1.inode_manager dir)
        × ((x : Child × EntryOut) → r3.0 ≡ done x → Unlisted r3.1.inode_manager dir)
        × ((x : Child × EntryOut) → r4.0 ≡ done x → Unlisted r4.1.inode_manager dir)
  made-Unlisted target other flags mode a = (
    λ r h. unlisted _ a (mkdir-dir_cache mode h),
    λ r h. unlisted _ a (create-dir_cache flags mode h),
    λ r h. unlisted _ a (symlink-dir_cache target h),
    λ r h. unlisted _ a (link-dir_cache other h),
  )
