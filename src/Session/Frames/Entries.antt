-- ===== src/Session/Frames/Entries.antt =====
-- The handlers that look a child up or make one keep a framed predicate, up to their allocations.
use fusefs.Common.{String, ℕ, ◌+◌, Option, arith}
use fusefs.Absfs.{Outcome, ok, fail, FileInfo}
use fusefs.Fuse.{Reply, done, FuseFs, FileSystem, with_inodes, on_inodes, give_up}
use fusefs.Inodes.{get_inode, invalidate_dir}
use fusefs.Session.Frames.{IsFrame}
use fusefs.Session.Frames.Rules.{
  Keeps, Spends, bind-Keeps, Keeps-Spends, Spends-Keeps, Spends-Spends, pure-Keeps,
  read_state-Keeps, attempt-Keeps, status-Keeps, require-Keeps, opening-Spends,
}
use fusefs.Operations.Entries.{
  look_up, finish_entry, node_mode, mkdir, create, symlink, link, stat_created, add_handle,
}

module _ {World File : Type 0} {fs : FileSystem World File} {P : ℕ → FuseFs World File → Type 0}
    (frame : IsFrame fs P) where
  pub name-Spends :
      (path : String) (info : FileInfo)
      → Spends P (λ _. 1) (with_inodes (λ im. get_inode im path info))
  unfolding with_inodes
  name-Spends path info = record { at = λ b s p. frame.names b (1 + b) s path info (omega arith) p }

  pub invalidate-Keeps : (path : String) → Keeps P (on_inodes (λ im. invalidate_dir im path))
  unfolding on_inodes
  invalidate-Keeps path = record { at = λ b s p. frame.invalidates b s path p }

  finish-Spends :
      (path : String) (info : FileInfo) (mode : ℕ)
      → Spends P (λ _. 1) (finish_entry fs path info mode)
  unfolding finish_entry
  finish-Spends path info mode =
      Spends-Keeps frame (name-Spends path info)
        (λ ino. bind-Keeps frame (read_state-Keeps frame) (λ s. pure-Keeps frame _))

  pub look_up-Spends : (path name : String) → Spends P (λ _. 1) (look_up fs path name)
  unfolding look_up
  look_up-Spends path name =
      opening-Spends frame
        (Keeps-Spends frame (attempt-Keeps frame _) (λ info. finish-Spends _ info (node_mode info)))

  pub mkdir-Spends : (path name : String) (mode : ℕ) → Spends P (λ _. 1) (mkdir fs path name mode)
  unfolding mkdir
  mkdir-Spends path name mode = opening-Spends frame (
      Keeps-Spends frame (status-Keeps frame _) (λ _.
        Keeps-Spends frame (invalidate-Keeps path)
          (λ _. Keeps-Spends frame (attempt-Keeps frame _) (λ info. finish-Spends _ info _))))

  -- The file of a failed stat is closed, which only the mounted filesystem and the counters see.
  created-P :
      (r : Outcome FileInfo) (file : File) (w : World) (b : ℕ) (s : FuseFs World File)
      → P b s
      → P b
          (elim r as (λ _. Reply FileInfo × FuseFs World File) [
            | ok info ↦ (done info, record s { world = w })
            | fail err ↦ give_up err (record s { world = (fs.close file w).0 })
          ]).1
  unfolding give_up
  created-P (ok info) file w b s p = frame.framed b s w s.stats p
  created-P (fail err) file w b s p = frame.framed b s (fs.close file w).0 _ p

  stat_created-Keeps : (path : String) (file : File) → Keeps P (stat_created fs path file)
  unfolding stat_created
  stat_created-Keeps path file = record {
    at = λ b s p. let (w, result) = fs.stat path s.world in created-P result file w b s p;
  }

  pub add-Spends :
      (file : File) (flags : ℕ) (path : String) → Spends P (λ _. 1) (add_handle fs file flags path)
  unfolding add_handle
  add-Spends file flags path = record {
    at = λ b s p. frame.opens b (1 + b) s file flags path (omega arith) p;
  }

  pub create-Spends :
      (path name : String) (flags mode : ℕ) → Spends P (λ _. 2) (create fs path name flags mode)
  unfolding create
  create-Spends path name flags mode = opening-Spends frame (
      Keeps-Spends frame (attempt-Keeps frame _) (λ file.
        Keeps-Spends frame (invalidate-Keeps path) (λ _.
          Keeps-Spends frame (stat_created-Keeps _ file) (λ info.
            Spends-Spends frame (finish-Spends _ info _) (λ (child, out).
              Spends-Keeps frame (add-Spends file _ _) (λ fh. pure-Keeps frame _))))))

  pub symlink-Spends : (path target name : String) → Spends P (λ _. 1) (symlink fs path target name)
  unfolding symlink
  symlink-Spends path target name = opening-Spends frame (
      Keeps-Spends frame (require-Keeps frame _ _) (λ call.
        Keeps-Spends frame (status-Keeps frame _) (λ _.
          Keeps-Spends frame (invalidate-Keeps path)
            (λ _. Keeps-Spends frame (attempt-Keeps frame _) (λ info. finish-Spends _ info _)))))

  pub link-Spends :
      (path : String) (target : Option String) (name : String)
      → Spends P (λ _. 1) (link fs path target name)
  unfolding link
  link-Spends path target name = opening-Spends frame (
      Keeps-Spends frame (require-Keeps frame _ _) (λ t.
        Keeps-Spends frame (require-Keeps frame _ _) (λ call.
          Keeps-Spends frame (status-Keeps frame _) (λ _.
            Keeps-Spends frame (invalidate-Keeps path)
              (λ _. Keeps-Spends frame (attempt-Keeps frame _) (λ info. finish-Spends _ info _))))))
