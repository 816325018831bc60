-- ===== src/Operations/Linking.antt =====
-- operations.go: the numbers of a hard link and of a renamed file.
use fusefs.Common.{
  ℕ, String, ◌≡◌, some, arith, inl, inr, Option-cases, ◌+◌, ◌<◌, ◌^◌, ◌≢◌, subst, sym, ◌∙◌,
}
use fusefs.Absfs.{FileInfo, Outcome-cases}
use fusefs.Fuse.{
  FileSystem, FuseFs, done, count_operation, check_mounted, attempt, attempt_status, require,
  on_inodes, with_inodes, read_state, give_up,
}
use fusefs.Common.Keys.{string_key}
use fusefs.Common.Assoc.{lookup}
use fusefs.Inodes.Stability.{Named, get_inode-Named, get_inode-Named_ne, get_inode_injective}
use fusefs.Inodes.Numbers.{IsValid, get_inode-IsValid, caches-IsValid}
use fusefs.Inodes.{is_same_file, InodeManager, get_inode, invalidate_dir}
use fusefs.Operations.{Child, EntryOut}
use fusefs.Operations.Entries.{link, finish_entry, look_up}
use fusefs.Operations.Directories.{rename}

module _ {World File : Type 0} (fs : FileSystem World File) (s : FuseFs World File)
    (dir name : String) where
  numbered :
      (target : String) {r : Child × EntryOut}
      → (link fs dir (some target) name s).0 ≡ done r
      → (info : FileInfo) × (r.0.ino
          ≡ (get_inode (invalidate_dir s.inode_manager dir) (fs.join dir name) info).1)
  unfolding link finish_entry count_operation check_mounted attempt attempt_status on_inodes
      with_inodes read_state give_up require
  numbered target {r} h = elim (Option-cases fs.link) [
    | inl e ↦ absurd (ground arith)
    | inr (call, e) ↦
        let full_path = fs.join dir name in
        elim (Outcome-cases (fs.stat full_path (call target full_path s.world).0).1) [
          | inl (info, e') ↦ (info, ground arith)
          | inr (err, e') ↦ absurd (ground arith)
        ]
  ]

  apart :
      (im : InodeManager) (target path : String) (info other : FileInfo) (ino : ℕ)
      → IsValid im
      → im.next_inode + 1 < 2 ^ 64
      → target ≢ path
      → Named im target ino info
      → (get_inode im path other).1 ≢ ino
  apart im target path info other ino v small n named same =
      let after = get_inode im path other in
      let old = get_inode-Named_ne im target path info other ino v small n named in
      let new = get_inode-Named im path other in
      n (
        get_inode_injective after.0 target path ino (get_inode-IsValid im path other small v)
          (unfold Named in old.0)
          (subst (λ i. lookup path after.0.path_to_inode ≡ some i) same (unfold Named in new.0)))

  -- A Link that succeeds answers with a number other than that of its target, where the target has
  -- a number and another path than the link, the inode manager is valid and its counter has not
  -- run through.
  pub link_apart :
      (target : String) (info : FileInfo) (ino : ℕ) {r : Child × EntryOut}
      → IsValid s.inode_manager
      → s.inode_manager.next_inode + 1 < 2 ^ 64
      → target ≢ fs.join dir name
      → Named s.inode_manager target ino info
      → (link fs dir (some target) name s).0 ≡ done r
      → r.0.ino ≢ ino
  link_apart target info ino {r} v small n named h same =
      let (other, e) = numbered target h in
      apart (invalidate_dir s.inode_manager dir) target (fs.join dir name) info other ino
        (unfold invalidate_dir in caches-IsValid s.inode_manager _ _ v)
        (unfold invalidate_dir in small) n (unfold invalidate_dir Named is_same_file in named)
        (sym e ∙ same)

module _ {World File : Type 0} (fs : FileSystem World File) (s : FuseFs World File)
    (dir name parent new_name : String) where
  -- Rename leaves the numbers alone.
  numbers-rename :
      let im = (rename fs dir name (some parent) new_name s).1.inode_manager in
      im ≡ record s.inode_manager { dir_cache = im.dir_cache }
  unfolding rename count_operation check_mounted attempt_status on_inodes give_up require
      invalidate_dir
  numbers-rename =
      elim (Option-cases (fs.rename (fs.join dir name) (fs.join parent new_name) s.world).1) [
        | inl e ↦ ground arith
        | inr (err, e) ↦ ground arith
      ]

  looked_up :
      (t : FuseFs World File) {r : Child × EntryOut}
      → (look_up fs parent new_name t).0 ≡ done r
      → (info : FileInfo) × (r.0.ino ≡ (get_inode t.inode_manager (fs.join parent new_name) info).1)
  unfolding look_up finish_entry count_operation check_mounted attempt with_inodes read_state
      give_up
  looked_up t {r} h = elim (Outcome-cases (fs.stat (fs.join parent new_name) t.world).1) [
    | inl (info, e) ↦ (info, ground arith)
    | inr (err, e) ↦ absurd (ground arith)
  ]

  -- A Lookup of a Rename's new name, that succeeds right after the Rename, answers with a number
  -- other than the one the old name had, where the two names have different paths, the inode
  -- manager is valid and its counter has not run through.
  pub rename_apart :
      (info : FileInfo) (ino : ℕ) {r : Child × EntryOut}
      → IsValid s.inode_manager
      → s.inode_manager.next_inode + 1 < 2 ^ 64
      → fs.join dir name ≢ fs.join parent new_name
      → Named s.inode_manager (fs.join dir name) ino info
      → (look_up fs parent new_name (rename fs dir name (some parent) new_name s).1).0 ≡ done r
      → r.0.ino ≢ ino
  rename_apart info ino {r} v small n named h same =
      let t = (rename fs dir name (some parent) new_name s).1 in
      let d = t.inode_manager.dir_cache in
      let (other, e) = looked_up t h in
      let kept : t.inode_manager ≡ record s.inode_manager { dir_cache = d } = numbers-rename in
      apart fs s parent new_name (record s.inode_manager { dir_cache = d }) (fs.join dir name)
        (fs.join parent new_name) info other ino (caches-IsValid s.inode_manager _ d v) small n
        (unfold Named is_same_file in named)
        (subst (λ im. (get_inode im (fs.join parent new_name) other).1 ≡ ino) kept (sym e ∙ same))
