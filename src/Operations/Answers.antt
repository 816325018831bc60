-- ===== src/Operations/Answers.antt =====
-- What answers of the mounted filesystem an attribute and a listing were made of.
use fusefs.Common.{[], ◌∷◌, ℕ, ◌≡◌, String, List, map, ◌∷◌, ap, refl}
use fusefs.Absfs.{FileInfo, Attr, DirEntry, ok}
use fusefs.Fuse.{FileSystem}
use fusefs.Options.{MountOptions}
use fusefs.Operations.{fill_attr}
use fusefs.Operations.Entries.{node_mode}
use fusefs.Operations.Directories.{fuse_entries}
use fusefs.Inodes.{InodeManager, get_inode}

-- The attributes are those that a Stat of the path answered, in some state of the filesystem.
pub record AttrOf {World File : Type 0} (fs : FileSystem World File) (opts : MountOptions)
    (path : String) (attr : Attr) : Type 0 where
  pub before : World
  pub info : FileInfo
  pub ino : ℕ
  pub answered : (fs.stat path before).1 ≡ ok info
  pub filled : attr ≡ fill_attr fs opts info ino

-- The names and the types of the entries are those that a Readdir answered, in their order, of a
-- file that an Open of the path gave.
pub record ListingOf {World File : Type 0} (fs : FileSystem World File) (path : String)
    (entries : List DirEntry) : Type 0 where
  pub before : World
  pub dir : File
  pub opened : (fs.open_dir path before).1 ≡ ok dir
  pub reading : World
  pub infos : List FileInfo
  pub answered : (fs.read_dir dir reading).1 ≡ ok infos
  pub names : map (λ e. e.name) entries ≡ map (λ info. info.name) infos
  pub modes : map (λ e. e.mode) entries ≡ map (λ info. node_mode info) infos

module _ {World File : Type 0} (fs : FileSystem World File) where
  pub names-fuse_entries :
      (im : InodeManager) (path : String) (infos : List FileInfo)
      → map (λ e. e.name) (fuse_entries fs im path infos).1 ≡ map (λ info. info.name) infos
  unfolding fuse_entries
  names-fuse_entries im path [] = refl
  names-fuse_entries im path (info ∷ infos) =
      ap (◌∷◌ info.name)
        (names-fuse_entries (get_inode im (fs.join path info.name) info).0 path infos)

  pub modes-fuse_entries :
      (im : InodeManager) (path : String) (infos : List FileInfo)
      → map (λ e. e.mode) (fuse_entries fs im path infos).1 ≡ map (λ info. node_mode info) infos
  unfolding fuse_entries
  modes-fuse_entries im path [] = refl
  modes-fuse_entries im path (info ∷ infos) =
      ap (◌∷◌ (node_mode info))
        (modes-fuse_entries (get_inode im (fs.join path info.name) info).0 path infos)
