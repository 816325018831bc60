-- ===== src/Session/Frames/Directories.antt =====
-- Readdir, Unlink, Rmdir, Rename and Readlink keep a framed predicate; Readdir spends one inode
-- number for each entry that it answers with.
use fusefs.Common.{String, ℕ, ◌+◌, Option, List, [], ◌∷◌, length, arith, suc, ◌≡◌, refl}
use fusefs.Absfs.{FileInfo, ok}
use fusefs.Fuse.{
  FuseFs, FileSystem, Reply, with_inodes, on_inodes, count_operation, check_mounted, attempt_status,
  ◌>>◌, Handler, ◌>>=◌,
}
use fusefs.Inodes.{InodeManager, get_inode, get_dir_cache, invalidate_dir}
use fusefs.Session.{answered}
use fusefs.Session.Frames.{IsFrame}
use fusefs.Session.Frames.Answered.{answer-P, attempt-Spends}
use fusefs.Session.Frames.Rules.{
  Keeps, Spends, bind-Keeps, Keeps-Spends, option-Spends, pure-Keeps, attempt-Keeps, status-Keeps,
  require-Keeps, opening-Keeps, opening-Spends,
}
use fusefs.Session.Frames.Entries.{invalidate-Keeps}
use fusefs.Operations.Directories.{
  fuse_entries, read_and_close, fresh_entries, readdir, unlink, rmdir, rename, readlink,
  store_listing, readdir_among,
}
use fusefs.Operations.Answers.{names-fuse_entries, modes-fuse_entries}

module _ {World File : Type 0} {fs : FileSystem World File} {P : ℕ → FuseFs World File → Type 0}
    (frame : IsFrame fs P) where
  fuse_entries-P :
      (im : InodeManager) (path : String) (infos : List FileInfo) (b : ℕ) (s : FuseFs World File)
      → P (length (fuse_entries fs im path infos).1 + b) (record s { inode_manager = im })
      → P b (record s { inode_manager = (fuse_entries fs im path infos).0 })
  unfolding fuse_entries
  fuse_entries-P im path [] b s p =
      frame.weaker b (0 + b) (record s { inode_manager = im }) (omega arith) p
  fuse_entries-P im path (info ∷ infos) b s p =
      let name = fs.join path info.name in
      let next = (get_inode im name info).0 in
      let n = length (fuse_entries fs next path infos).1 in
      fuse_entries-P next path infos b s (
        frame.names (n + b) (suc n + b) (record s { inode_manager = im }) name info (omega arith) p)

  recall_dir-Keeps :
      (now : ℕ) (path : String) → Keeps P (with_inodes (λ im. get_dir_cache im now path))
  unfolding with_inodes
  recall_dir-Keeps now path = record { at = λ b s p. frame.recalls_dir b s now path p }

  -- What Readdir keeps of an answer.
  listing-Spends :
      (now : ℕ) (path : String) (w w' : World) (dir : File) (infos : List FileInfo)
      → (fs.open_dir path w).1 ≡ ok dir
      → (fs.read_dir dir w').1 ≡ ok infos
      → Spends P answered (store_listing fs now path infos)
  unfolding store_listing with_inodes on_inodes
  listing-Spends now path w w' dir infos e e' = record {
    at = λ b s p.
        frame.caches_dir b _ now path (fuse_entries fs s.inode_manager path infos).1
          (record {
            before = w;
            dir = dir;
            opened = e;
            reading = w';
            infos = infos;
            answered = e';
            names = names-fuse_entries fs s.inode_manager path infos;
            modes = modes-fuse_entries fs s.inode_manager path infos;
          })
          (fuse_entries-P s.inode_manager path infos b s p);
  }

  read_and_close-Spends :
      {B : Type 0} {c : Reply B → ℕ} (dir : File) {f : List FileInfo → Handler World File B}
      → ((infos : List FileInfo) (w : World)
          → (fs.read_dir dir w).1 ≡ ok infos
          → Spends P c (f infos))
      → Spends P c (read_and_close fs dir >>= f)
  unfolding read_and_close
  read_and_close-Spends {c} dir {f} k = record {
    at = λ b s p.
        let (w, result) = fs.read_dir dir s.world in
        answer-P frame (fs.read_dir dir) s.world f c b _ result refl k
          (frame.framed _ s (fs.close dir w).0 s.stats p);
  }

  fresh-Spends : (now : ℕ) (path : String) → Spends P answered (fresh_entries fs (λ t. t) now path)
  unfolding fresh_entries
  fresh-Spends now path = attempt-Spends frame (fs.open_dir path) (λ dir w e.
      read_and_close-Spends dir (λ infos w' e'. listing-Spends now path w w' dir infos e e'))

  pub readdir-Spends : (now : ℕ) (path : String) → Spends P answered (readdir fs now path)
  unfolding readdir readdir_among
  readdir-Spends now path = opening-Spends frame (
      Keeps-Spends frame (recall_dir-Keeps now path) (λ cached.
        option-Spends frame cached (fresh-Spends now path) (λ entries. pure-Keeps frame _)))

  remove-Keeps :
      (path name : String)
      → Keeps P (
          count_operation
          >> (check_mounted
              >> (attempt_status (fs.remove (fs.join path name))
                  >> on_inodes (λ im. invalidate_dir im path))))
  remove-Keeps path name =
      opening-Keeps frame
        (bind-Keeps frame (status-Keeps frame _) (λ _. invalidate-Keeps frame path))

  pub unlink-Keeps : (path name : String) → Keeps P (unlink fs path name)
  unfolding unlink
  unlink-Keeps path name = remove-Keeps path name

  pub rmdir-Keeps : (path name : String) → Keeps P (rmdir fs path name)
  unfolding rmdir
  rmdir-Keeps path name = remove-Keeps path name

  pub rename-Keeps :
      (path name : String) (parent : Option String) (new_name : String)
      → Keeps P (rename fs path name parent new_name)
  unfolding rename
  rename-Keeps path name parent new_name = opening-Keeps frame (
      bind-Keeps frame (require-Keeps frame _ _) (λ q.
        bind-Keeps frame (status-Keeps frame _)
          (λ _. bind-Keeps frame (invalidate-Keeps frame path) (λ _. invalidate-Keeps frame q))))

  pub readlink-Keeps : (path : String) → Keeps P (readlink fs path)
  unfolding readlink
  readlink-Keeps path =
      opening-Keeps frame
        (bind-Keeps frame (require-Keeps frame _ _) (λ call. attempt-Keeps frame _))
