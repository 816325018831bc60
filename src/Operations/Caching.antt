-- ===== src/Operations/Caching.antt =====
-- operations.go: a second Readdir is answered from the cache while its entry lives.
use fusefs.Common.{ℕ, ◌-◌, ◌≡◌, String, false, List, none, some, inl, inr, ltb, ◌&&◌, arith}
use fusefs.Absfs.{DirEntry, Outcome-cases}
use fusefs.Fuse.{
  FileSystem, FuseFs, done, count_operation, check_mounted, attempt, with_inodes, on_inodes,
  give_up,
}
use fusefs.Cache
use fusefs.Cache.{LruCache}
use fusefs.Cache.Agreement.{Agrees}
use fusefs.Cache.Bounds.{limits-get}
use fusefs.Cache.Refinement.{get-GetsLike, get-put}
use fusefs.Inodes.{get_dir_cache, cache_dir}
use fusefs.Operations.Numbering.{dir_cache-fuse_entries}
use fusefs.Operations.Directories.{
  readdir, fresh_entries, store_listing, read_and_close, readdir_among,
}

-- The entry of that age has not outlived the ttl of the cache.
abbrev pub Lives : {V : Type 0} → LruCache V → ℕ → ℕ → Type 0
Lives c now later = (ltb 0 c.ttl && ltb c.ttl (later - now)) ≡ false

-- A Get that finds nothing, a Put, and a Get again.
put_found :
    {V : Type 0} (c : LruCache V) (now later : ℕ) (k : String) (v : V)
    → Agrees c
    → Lives c now later
    → (Cache.get (Cache.put (Cache.get c now k).0 now k v) later k).1 ≡ some v
put_found c now later k v a l =
    let got = (Cache.get c now k).0 in
    ground
      (arith, get-put got now later k v (get-GetsLike c a now k).agrees, (limits-get c now k).1)

module _ {World File : Type 0} (fs : FileSystem World File) (s : FuseFs World File) (path : String)
    (now later : ℕ) where
  listing_stored :
      (entries : List DirEntry)
      → (get_dir_cache s.inode_manager now path).1 ≡ none
      → (readdir fs now path s).0 ≡ done entries
      → ((readdir fs now path s).1.inode_manager.dir_cache
          ≡ Cache.put (Cache.get s.inode_manager.dir_cache now path).0 now path entries)
        × ((readdir fs now path s).1.unmounting ≡ false)
  unfolding readdir readdir_among fresh_entries store_listing read_and_close count_operation
      check_mounted attempt with_inodes on_inodes give_up get_dir_cache cache_dir
  listing_stored entries c h = elim (Outcome-cases (fs.open_dir path s.world).1) [
    | inl (dir, e) ↦
        let (w, r) = fs.read_dir dir (fs.open_dir path s.world).0 in
        elim (Outcome-cases r) [
          | inl (infos, e') ↦
              let im = (get_dir_cache s.inode_manager now path).0 in
              let kept = dir_cache-fuse_entries fs im path infos in
              (ground (arith, kept), ground arith)
          | inr (err, e') ↦ absurd (ground arith)
        ]
    | inr (err, e) ↦ absurd (ground arith)
  ]

  listed_from_cache :
      (t : FuseFs World File) (entries : List DirEntry)
      → t.unmounting ≡ false
      → (get_dir_cache t.inode_manager later path).1 ≡ some entries
      → ((readdir fs later path t).0 ≡ done entries) × ((readdir fs later path t).1.world ≡ t.world)
  unfolding readdir readdir_among count_operation check_mounted with_inodes
  listed_from_cache t entries m c = (ground arith, ground arith)

  -- If a Readdir with nothing cached answers, then a second one, while the entry has not outlived
  -- the ttl, gives the same listing without calling the mounted filesystem, where the cache's map
  -- and list agree.
  pub readdir_again :
      (entries : List DirEntry)
      → Agrees s.inode_manager.dir_cache
      → Lives s.inode_manager.dir_cache now later
      → (get_dir_cache s.inode_manager now path).1 ≡ none
      → (readdir fs now path s).0 ≡ done entries
      → let t = (readdir fs now path s).1 in
        ((readdir fs later path t).0 ≡ done entries) × ((readdir fs later path t).1.world ≡ t.world)
  unfolding get_dir_cache
  readdir_again entries a l c h =
      let t = (readdir fs now path s).1 in
      let (kept, m) = listing_stored entries c h in
      let found : (Cache.get t.inode_manager.dir_cache later path).1 ≡ some entries =
        rw kept (put_found s.inode_manager.dir_cache now later path entries a l) in
      listed_from_cache t entries m found
