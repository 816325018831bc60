-- ===== src/Session/Steps/Once.antt =====
-- An inode number and a handle mean one thing for good, whatever comes between their uses.
use fusefs.Common.{ℕ, ◌+◌, ◌^◌, ◌<◌, ◌≤◌, ◌≡◌, String, List, some, arith, ◌++◌, sym, dec_le, ◌∙◌}
use fusefs.Common.Keys.{string_key, nat_key}
use fusefs.Common.Assoc.{lookup}
use fusefs.Fuse.{FuseFs, FileSystem, new_fuse_fs}
use fusefs.Handles.{add, get}
use fusefs.Inodes.{get_cached, cache, get_dir_cache, cache_dir, invalidate_dir}
use fusefs.Options.{MountOptions}
use fusefs.Session.Frames.{IsFrame}
use fusefs.Session.Steps.{Step, take_all, allocations}
use fusefs.Session.Steps.Atomic.{take_all-P, take_all-Sound, take_all-++, allocations-++}
use fusefs.Handles.Lifecycle.{next_handle-release, next_handle-close_all}
use fusefs.Session.Sound.Parts.{Sound}
use fusefs.Inodes.Stability.{next_inode-get_inode_le, numbered-get_inode}
use fusefs.Handles.Before.{get-add_before, get-release_before, get-close_all_before}

module _ {World File : Type 0} (fs : FileSystem World File) where
  -- The number was given, and only this path may have it; so many more may be given.
  abbrev Theirs : String → ℕ → ℕ → FuseFs World File → Type 0
  Theirs path ino b s =
      (ino ≤ s.inode_manager.next_inode)
      × ((q : String) → lookup q s.inode_manager.path_to_inode ≡ some ino → q ≡ path)
      × (s.inode_manager.next_inode + b < 2 ^ 64)

  -- The same of a handle and its file.
  abbrev Opened : File → ℕ → ℕ → FuseFs World File → Type 0
  Opened file fh b s =
      (fh ≤ s.handle_tracker.next_handle)
      × ((g : File) → get s.handle_tracker fh ≡ some g → g ≡ file)
      × (s.handle_tracker.next_handle + b < 2 ^ 64)

  Theirs-IsFrame : (path : String) (ino : ℕ) → IsFrame fs (Theirs path ino)
  unfolding get_cached cache get_dir_cache cache_dir invalidate_dir
  Theirs-IsFrame path ino = record {
    weaker = λ b b' s l t. (t.0, t.1, omega (arith, t.2, l));
    framed = λ b s w st t. t;
    names = λ b b' s p info l t.
        let im = s.inode_manager in
        let small : im.next_inode + 1 < 2 ^ 64 = omega (arith, t.2, l) in
        let le = next_inode-get_inode_le im p info small in
        (
          omega (arith, t.0, le.0),
          λ q e. t.1 q (numbered-get_inode im p q info ino t.0 small e),
          omega (arith, t.2, l, le.1),
        );
    recalls = λ b s now p t. t;
    caches = λ b s now p attr of t. t;
    recalls_dir = λ b s now p t. t;
    caches_dir = λ b s now p entries of t. t;
    invalidates = λ b s p t. t;
    opens = λ b b' s file flags p l t. (t.0, t.1, omega (arith, t.2, l));
    releases = λ b s fh t. t;
    locks = λ b s c t. t;
    stops = λ b s t. t;
    closes = λ b s order t. t;
    forgets = λ b s t. (t.0, λ q e. absurd (unfold lookup in cc e), t.2);
    clears_attrs = λ b s t. t;
    clears_dirs = λ b s t. t;
  }

  Opened-IsFrame : (file : File) (fh : ℕ) → IsFrame fs (Opened file fh)
  Opened-IsFrame file fh = record {
    weaker = λ b b' s l t. (t.0, t.1, omega (arith, t.2, l));
    framed = λ b s w st t. t;
    names = λ b b' s p info l t. (t.0, t.1, omega (arith, t.2, l));
    recalls = λ b s now p t. t;
    caches = λ b s now p attr of t. t;
    recalls_dir = λ b s now p t. t;
    caches_dir = λ b s now p entries of t. t;
    invalidates = λ b s p t. t;
    opens = λ b b' s f flags p l t.
        let ht = s.handle_tracker in
        let small : ht.next_handle + 1 < 2 ^ 64 = omega (arith, t.2, l) in
        (
          unfold add in omega (arith, t.0, small),
          λ g e. t.1 g (get-add_before ht f flags p fh g t.0 small e),
          unfold add in omega (arith, t.2, l),
        );
    releases = λ b s q t.
        let same = next_handle-release fs.close s.handle_tracker s.world q in
        (
          omega (arith, t.0, same),
          λ g e. t.1 g (get-release_before fs.close s.handle_tracker s.world q fh g e),
          omega (arith, t.2, same),
        );
    locks = λ b s c t. t;
    stops = λ b s t. t;
    closes = λ b s order t.
        let same = next_handle-close_all fs.close order s.handle_tracker s.world in
        (
          omega (arith, t.0, same),
          λ g e. t.1 g (get-close_all_before fs.close order s.handle_tracker s.world fh g e),
          omega (arith, t.2, same),
        );
    forgets = λ b s t. t;
    clears_attrs = λ b s t. t;
    clears_dirs = λ b s t. t;
  }

  module _ (opts : MountOptions) (w : World) (xs ys : List (Step fs))
      (room : 1 + allocations (xs ++ ys) < 2 ^ 64) where
    abbrev before : FuseFs World File
    before = take_all fs xs (new_fuse_fs w opts)

    -- What holds of the state before the second steps.
    sound : Sound (allocations ys) before
    sound =
        take_all-Sound fs xs w opts (allocations ys) (omega (arith, allocations-++ fs xs ys, room))

    -- After any steps from a new FuseFS, and any more after them, that cannot run through a 64-bit
    -- counter: a number that a path had, and that a path has later, is the same path's.
    pub number_once :
        (p q : String) (i : ℕ)
        → lookup p (take_all fs xs (new_fuse_fs w opts)).inode_manager.path_to_inode ≡ some i
        → lookup q (take_all fs (xs ++ ys) (new_fuse_fs w opts)).inode_manager.path_to_inode
          ≡ some i
        → p ≡ q
    number_once p q i h h' =
        let named = sound.numbers.forward p i h in
        let given : i ≤ before.inode_manager.next_inode =
          elim (dec_le i before.inode_manager.next_inode) [
            | yes l ↦ l
            | no n ↦ absurd (cc (sym named ∙ sound.numbers.bounded i (omega (arith, n))))
          ] in
        let alone : (r : String) → lookup r before.inode_manager.path_to_inode ≡ some i → r ≡ p =
          λ r e. ground (arith, sound.numbers.forward r i e, named) in
        let t =
          take_all-P fs (Theirs-IsFrame p i) ys 0 before
            (given, alone, omega (arith, sound.inode_room)) in
        sym (t.1 q (rw (sym (take_all-++ fs xs ys (new_fuse_fs w opts))) h'))

    -- After any steps from a new FuseFS, and any more after them, that cannot run through a 64-bit
    -- counter: a handle that gave a file, and that gives one later, gives the same file.
    pub handle_once :
        (fh : ℕ) (file file' : File)
        → get (take_all fs xs (new_fuse_fs w opts)).handle_tracker fh ≡ some file
        → get (take_all fs (xs ++ ys) (new_fuse_fs w opts)).handle_tracker fh ≡ some file'
        → file ≡ file'
    unfolding get
    handle_once fh file file' h h' =
        let given : fh ≤ before.handle_tracker.next_handle =
          elim (dec_le fh before.handle_tracker.next_handle) [
            | yes l ↦ l
            | no n ↦ absurd (ground (arith, sound.handles.bounded fh (omega (arith, n)), h))
          ] in
        let alone : (g : File) → get before.handle_tracker fh ≡ some g → g ≡ file =
          λ g e. ground arith in
        let t =
          take_all-P fs (Opened-IsFrame file fh) ys 0 before
            (given, alone, omega (arith, sound.handle_room)) in
        sym (t.1 file' (rw (sym (take_all-++ fs xs ys (new_fuse_fs w opts))) h'))
