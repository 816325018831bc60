-- ===== src/Session/Ended/Late.antt =====
-- An Open that had its file from the mounted filesystem before an Unmount, and tracks it after.
use fusefs.Absfs.{ok}
use fusefs.Common.{
  ℕ, ◌≡◌, refl, String, true, false, List, Option, some, any, length, [], ◌∷◌, arith, ℕ_discrete,
  subst, sym,
}
use fusefs.Fuse.{FileSystem, FuseFs, Status, done, count_operation, check_mounted, attempt, Reply}
use fusefs.Handles.{HandleTracker, add, get, count}
use fusefs.Handles.Lifecycle.{Covers}
use fusefs.Mount.{unmount}
use fusefs.Operations.Entries.{add_handle, FileHandle}
use fusefs.Session.{Request, run}
use fusefs.Session.Ended.{unmount-Ended}
use fusefs.Session.Ended.Calls.{is_unmount, run-Ended}
use fusefs.Common.Assoc.{insert, lookup}
use fusefs.Operations.Files.{open_among}
use fusefs.Operations.{map_open_flags}
use fusefs.Stats.{record_operation}

none_left : {A : Type 0} (xs : List A) → length xs ≡ 0 → xs ≡ []
none_left [] e = refl
none_left (x ∷ xs) e = absurd (omega (arith, e))

-- The only handle of a tracker that was empty.
only_handle :
    {File : Type 0} (ht : HandleTracker File) (file : File) (flags : ℕ) (path : String)
    → ht.handles ≡ []
    → let (ht', fh) = add ht file flags path in (get ht' fh ≡ some file) × (count ht' ≡ 1)
unfolding add get count insert lookup ℕ_discrete
only_handle ht file flags path e = (rw e (ground arith), rw e refl)

module _ {World File : Type 0} (fs : FileSystem World File) where
  -- An Open, not refused, in which an Unmount and then any calls that are no Unmounts come after
  -- the mounted filesystem has given the file and before the rest, answers with a handle and
  -- leaves the file open: the filesystem counts as unmounting, and that one handle is open, with
  -- the file, although CloseAll met every handle.
  pub late_open :
      (server : Option (Status World)) (order : List ℕ) (s : FuseFs World File)
      (rs : List (Request World)) (path : String) (flags : ℕ) {file : File}
      → s.unmounting ≡ false
      → (fs.open_file path (map_open_flags flags) 0 s.world).1 ≡ ok file
      → Covers order s.handle_tracker
      → any is_unmount rs ≡ false
      → let r = open_among fs (λ t. run fs rs (unmount fs server order t).0) path flags s in
        (r.1.unmounting ≡ true)
        × (fh : ℕ) × (r.0 ≡ done (record { path = path; handle = fh }))
        × (get r.1.handle_tracker fh ≡ some file)
        × (count r.1.handle_tracker ≡ 1)
  unfolding open_among add_handle count count_operation check_mounted attempt
  late_open server order s rs path flags {file} m o c q =
      let call = fs.open_file path (map_open_flags flags) 0 in
      let asked : FuseFs World File = record s {
        world = (call s.world).0;
        stats = record_operation s.stats;
      } in
      let t = run fs rs (unmount fs server order asked).0 in
      let came : open_among fs (λ t. run fs rs (unmount fs server order t).0) path flags s
          ≡ add_handle fs file (map_open_flags flags) path t =
        ground arith in
      let e = run-Ended fs _ rs _ q (unmount-Ended fs server order asked c) in
      let only = only_handle _ file (map_open_flags flags) path (none_left _ e.closed) in
      subst Leaves (sym came) (e.stopped, _, refl, only.0, only.1)
    where
      Leaves : Reply FileHandle × FuseFs World File → Type 0
      Leaves r =
          (r.1.unmounting ≡ true)
          × (fh : ℕ) × (r.0 ≡ done (record { path = path; handle = fh }))
          × (get r.1.handle_tracker fh ≡ some file)
          × (count r.1.handle_tracker ≡ 1)
