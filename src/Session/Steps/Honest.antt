-- ===== src/Session/Steps/Honest.antt =====
-- What Readdir answers was answered by the mounted filesystem.
use fusefs.Common.{ℕ}
use fusefs.Cache.Values.{Stores}
use fusefs.Fuse.{FuseFs, FileSystem}
use fusefs.Options.{MountOptions}
use fusefs.Operations.Answers.{ListingOf}

module _ {World File : Type 0} (fs : FileSystem World File) (opts : MountOptions) where
  -- The listings in the cache were answered.
  abbrev Honest : ℕ → FuseFs World File → Type 0
  Honest b s = Stores (ListingOf fs) s.inode_manager.dir_cache
