-- ===== src/Basic/Ending.antt =====
-- What main leaves, by the way it ends.
use fusefs.Common.{ℕ, ◌≡◌, refl, String, true, List, none}
use fusefs.Fuse.{FuseFs, Status}
use fusefs.Handles.{HandleTracker, get}
use fusefs.Inodes.{total_inodes}
use fusefs.Mount.{Os}
use fusefs.Session.{Request}
use fusefs.Basic.{
  OsPackage, file_system, stat, open_file, open_path, mkdir, remove, rename, chtimes, chmod,
}
use fusefs.Basic.Program.{
  Process, Exit, died, returned, write_content, mounted, remove_temp, serve_mounted, main,
  mount_temp, with_temp,
}
use fusefs.Handles.Lifecycle.{Covers}
use fusefs.Absfs.{Outcome, fail, ok}

module _ {World File Server : Type 0} (os : OsPackage World File) (mounter : Os World Server)
    (process : Process World Server) (requests : List (Request World))
    (order : HandleTracker File → List ℕ) where
  -- Unmounted, with no handle and no path; `w` is the state of the operating system.
  record Stopped (w : World) (s : FuseFs World File) : Type 0 where
    stopped : s.unmounting ≡ true
    closed : (fh : ℕ) → get s.handle_tracker fh ≡ none
    forgotten : total_inodes s.inode_manager ≡ 0
    current : w ≡ s.world

  -- What holds when main, or a part of it, returns.
  abbrev Ends : (World → FuseFs World File → Type 0) → World × Exit World File → Type 0
  Ends Q (w, died) = Unit
  Ends Q (w, returned s) = Q w s

  -- A map's range meets every key.
  abbrev pub Ranges : Type 0
  Ranges = (ht : HandleTracker File) → Covers (order ht) ht

  -- What the removal of the temporary directory adds.
  abbrev Removed : String → World → FuseFs World File → Type 0
  Removed temp w s = Stopped s.world s × (w ≡ (os.remove_all temp s.world).0)

  -- The same, with the directory that main made.
  abbrev Cleaned : World → World → FuseFs World File → Type 0
  Cleaned w w' s =
      (temp : String) × ((process.mkdir_temp "" "fusefs-source-*" w).1 ≡ ok temp)
      × Removed temp w' s

  module _ (remove_all : String → Status World) where
    abbrev other : OsPackage World File
    other = record os { remove_all = remove_all }

    same_end :
        (temp : String) (r : World × Exit World File)
        → (remove_temp os mounter process requests order temp r).1 ≡ died
        → remove_temp other mounter process requests order temp r
          ≡ remove_temp os mounter process requests order temp r
    unfolding remove_temp
    same_end temp (w, died) e = refl
    same_end temp (w, returned s) e = absurd (cc e)

    same_temp :
        (r : World × Outcome String)
        → (with_temp os mounter process requests order r).1 ≡ died
        → with_temp other mounter process requests order r
          ≡ with_temp os mounter process requests order r
    unfolding with_temp write_content mount_temp mounted serve_mounted file_system stat open_file
        open_path mkdir remove rename chtimes chmod
    same_temp (w, fail err) d = refl
    same_temp (w, ok temp) d = same_end temp _ d

    -- If the example's main ends by log.Fatal, it does the same whatever os.RemoveAll does: it
    -- does not remove the directory that it made.
    pub main_died :
        (w : World)
        → (main os mounter process requests order w).1 ≡ died
        → main (record os { remove_all = remove_all }) mounter process requests order w
          ≡ main os mounter process requests order w
    unfolding main
    main_died w d = same_temp (process.mkdir_temp "" "fusefs-source-*" w) d
