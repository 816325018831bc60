-- ===== src/Session/Frames/Requests.antt =====
-- Every call, and every sequence of them, keeps a framed predicate, up to its cost.
use fusefs.Common.{ℕ, ◌+◌, ◌≤◌, Option, none, some, List, [], ◌∷◌, arith, true}
use fusefs.Fuse.{FuseFs, FileSystem, Handler, Status}
use fusefs.Session.{Request, serve, cost, run, total_cost}
use fusefs.Session.Frames.{IsFrame}
use fusefs.Session.Frames.Rules.{Keeps, Spends}
use fusefs.Session.Frames.Entries.{
  look_up-Spends, create-Spends, mkdir-Spends, symlink-Spends, link-Spends,
}
use fusefs.Session.Frames.Attributes.{getattr-Spends, setattr-Spends, access-Keeps, statfs-Keeps}
use fusefs.Session.Frames.Directories.{
  readdir-Spends, unlink-Keeps, rmdir-Keeps, rename-Keeps, readlink-Keeps,
}
use fusefs.Session.Frames.Files.{
  open-Spends, fsync-Keeps, read-Keeps, write-Keeps, release-Keeps, flush-Keeps, allocate-Keeps,
  getlk-Keeps, setlk-Keeps, setlkw-Keeps, flock-Keeps,
}
use fusefs.Session.Frames.Xattrs.{
  getxattr-Keeps, setxattr-Keeps, listxattr-Keeps, removexattr-Keeps,
}
use fusefs.Mount.{unmount}
use fusefs.Inodes.{clear}
use fusefs.Handles.{close_all}

module _ {World File : Type 0} {fs : FileSystem World File} {P : ℕ → FuseFs World File → Type 0}
    (frame : IsFrame fs P) where
  module _ {A : Type 0} {h : Handler World File A} (b : ℕ) (s : FuseFs World File) where
    kept : Keeps P h → P (2 + b) s → P b (h s).1
    kept k p = k.at b s (frame.weaker b (2 + b) s (omega arith) p)

    spent : (n : ℕ) → n ≤ 2 → Spends P (λ _. n) h → P (2 + b) s → P b (h s).1
    spent n l k p = k.at b s (frame.weaker (n + b) (2 + b) s (omega (arith, l)) p)

  -- What Unmount does to the stores, step by step.
  emptied-P :
      (order : List ℕ) (b : ℕ) (s : FuseFs World File)
      → P b s
      → P b (record s {
        unmounting = true;
        handle_tracker = (close_all fs.close order s.handle_tracker s.world).0;
        inode_manager = clear s.inode_manager;
      })
  unfolding clear
  emptied-P order b s p =
      frame.clears_dirs b _
        (frame.clears_attrs b _ (frame.forgets b _ (frame.closes b _ order (frame.stops b s p))))

  unmount-P :
      (server : Option (Status World)) (order : List ℕ) (b : ℕ) (s : FuseFs World File)
      → P b s
      → P b (unmount fs server order s).0
  unfolding unmount
  unmount-P none order b s p = frame.framed b _ _ s.stats (emptied-P order b s p)
  unmount-P (some call) order b s p = frame.framed b _ _ s.stats (emptied-P order b s p)

  pub serve-P :
      (r : Request World) (b : ℕ) (s : FuseFs World File)
      → P (cost fs r s + b) s
      → P b (serve fs r s)
  unfolding serve cost
  serve-P (Request.call_lookup path name) b s =
      spent b s 1 (omega arith) (look_up-Spends frame path name)
  serve-P (Request.call_create path name flags mode) b s =
      spent b s 2 (omega arith) (create-Spends frame path name flags mode)
  serve-P (Request.call_mkdir path name mode) b s =
      spent b s 1 (omega arith) (mkdir-Spends frame path name mode)
  serve-P (Request.call_symlink path target name) b s =
      spent b s 1 (omega arith) (symlink-Spends frame path target name)
  serve-P (Request.call_link path target name) b s =
      spent b s 1 (omega arith) (link-Spends frame path target name)
  serve-P (Request.call_getattr now path) b s =
      spent b s 1 (omega arith) (getattr-Spends frame now path)
  serve-P (Request.call_setattr now path f input) b s =
      spent b s 1 (omega arith) (setattr-Spends frame now path f input)
  serve-P (Request.call_access path caller mask) b s =
      kept b s (access-Keeps frame path caller mask)
  serve-P Request.call_statfs b s = kept b s (statfs-Keeps frame)
  serve-P (Request.call_readdir now path) b s = (readdir-Spends frame now path).at b s
  serve-P (Request.call_unlink path name) b s = kept b s (unlink-Keeps frame path name)
  serve-P (Request.call_rmdir path name) b s = kept b s (rmdir-Keeps frame path name)
  serve-P (Request.call_rename path name parent new_name) b s =
      kept b s (rename-Keeps frame path name parent new_name)
  serve-P (Request.call_readlink path) b s = kept b s (readlink-Keeps frame path)
  serve-P (Request.call_open path flags) b s =
      spent b s 1 (omega arith) (open-Spends frame path flags)
  serve-P (Request.call_fsync f) b s = kept b s (fsync-Keeps frame f)
  serve-P (Request.call_read fh size off) b s = kept b s (read-Keeps frame fh size off)
  serve-P (Request.call_write fh bytes off) b s = kept b s (write-Keeps frame fh bytes off)
  serve-P (Request.call_release fh) b s = kept b s (release-Keeps frame fh)
  serve-P (Request.call_flush fh) b s = kept b s (flush-Keeps frame fh)
  serve-P (Request.call_allocate fh off size mode) b s =
      kept b s (allocate-Keeps frame fh off size mode)
  serve-P (Request.call_getlk fh owner lk) b s = kept b s (getlk-Keeps frame fh owner lk)
  serve-P (Request.call_setlk fh owner lk) b s = kept b s (setlk-Keeps frame fh owner lk)
  serve-P (Request.call_setlkw fh owner lk) b s = kept b s (setlkw-Keeps frame fh owner lk)
  serve-P (Request.call_flock fh owner flags) b s = kept b s (flock-Keeps frame fh owner flags)
  serve-P (Request.call_getxattr path attr dest) b s =
      kept b s (getxattr-Keeps frame path attr dest)
  serve-P (Request.call_setxattr path attr bytes flags) b s =
      kept b s (setxattr-Keeps frame path attr bytes flags)
  serve-P (Request.call_listxattr path dest) b s = kept b s (listxattr-Keeps frame path dest)
  serve-P (Request.call_removexattr path attr) b s = kept b s (removexattr-Keeps frame path attr)
  serve-P (Request.call_unmount server order) b s =
      λ p. unmount-P server order b s (frame.weaker b (2 + b) s (omega arith) p)

  pub run-P :
      (rs : List (Request World)) (b : ℕ) (s : FuseFs World File)
      → P (total_cost fs rs s + b) s
      → P b (run fs rs s)
  unfolding run total_cost
  run-P [] b s p = frame.weaker b (0 + b) s (omega arith) p
  run-P (r ∷ rs) b s p =
      let n = total_cost fs rs (serve fs r s) in
      run-P rs b (serve fs r s) (
        serve-P r (n + b) s
          (frame.weaker (cost fs r s + (n + b)) (cost fs r s + n + b) s (omega arith) p))
