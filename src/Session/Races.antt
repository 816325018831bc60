-- ===== src/Session/Races.antt =====
-- A Readdir between whose two halves other calls come: it has read the directory, and stores the
-- listing after them.
use fusefs.Cache
use fusefs.Common.{ℕ, ◌-◌, ◌≡◌, String, List, map, none, some, ltb, ◌&&◌, if◌then◌else◌}
use fusefs.Absfs.{FileInfo, DirEntry}
use fusefs.Fuse.{FileSystem, FuseFs, done, Reply}
use fusefs.Inodes.{get_dir_cache}
use fusefs.Cache.Agreement.{Agrees}

module _ {World File : Type 0} (fs : FileSystem World File) where
  abbrev Agreed : ℕ → FuseFs World File → Type 0
  Agreed b s = Agrees s.inode_manager.dir_cache

  -- The listing has the names that were read, and is cached until it outlives the ttl.
  abbrev Stale : Reply (List DirEntry) × FuseFs World File → String → List FileInfo → ℕ → ℕ → Type 0
  Stale r path infos now later =
      let ttl = r.1.inode_manager.dir_cache.ttl in
      (entries : List DirEntry) × (r.0 ≡ done entries)
      × (map (λ e. e.name) entries ≡ map (λ info. info.name) infos)
      × ((get_dir_cache r.1.inode_manager later path).1
          ≡ (if ltb 0 ttl && ltb ttl (later - now) then none else some entries))
