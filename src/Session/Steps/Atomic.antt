-- ===== src/Session/Steps/Atomic.antt =====
-- Calls as sequences of steps, and what any interleaving of their steps keeps.
use fusefs.Common.{ℕ, ◌+◌, ◌≤◌, ◌<◌, ◌≡◌, refl, List, [], ◌∷◌, arith, ◌^◌, ◌++◌, subst, sym}
use fusefs.Fuse.{FuseFs, FileSystem, new_fuse_fs}
use fusefs.Options.{MountOptions}
use fusefs.Session.{Request, run, total_cost}
use fusefs.Session.Frames.{IsFrame}
use fusefs.Session.Frames.Requests.{run-P}
use fusefs.Session.Sound.Parts.{Sound}
use fusefs.Session.Sound.{Sound-IsFrame, new_fuse_fs-Sound}
use fusefs.Session.Steps.{Step, take, take_all, allocates, allocations}
use fusefs.Operations.{fill_attr}
use fusefs.Inodes.{cache}

module _ {World File : Type 0} (fs : FileSystem World File) where
  module _ {P : ℕ → FuseFs World File → Type 0} (frame : IsFrame fs P) where
    free : (b : ℕ) (s : FuseFs World File) → P (0 + b) s → P b s
    free b s p = frame.weaker b (0 + b) s (omega arith) p

    -- Every step keeps a framed predicate.
    take-P :
        (x : Step fs) (b : ℕ) (s : FuseFs World File) → P (allocates x + b) s → P b (take fs x s)
    unfolding take allocates
    take-P (Step.calls w) b s p = frame.framed b s w s.stats (free b s p)
    take-P (Step.counts st) b s p = frame.framed b s s.world st (free b s p)
    take-P (Step.names path info) b s p = frame.names b (1 + b) s path info (omega arith) p
    take-P (Step.recalls now path) b s p = frame.recalls b s now path (free b s p)
    take-P (Step.caches now path before info ino e) b s p =
        frame.caches b s now path (fill_attr fs s.opts info ino)
          (record { before = before; info = info; ino = ino; answered = e; filled = refl })
          (free b s p)
    take-P (Step.recalls_dir now path) b s p = frame.recalls_dir b s now path (free b s p)
    take-P (Step.caches_dir now path entries of) b s p =
        frame.caches_dir b s now path entries of (free b s p)
    take-P (Step.invalidates path) b s p = frame.invalidates b s path (free b s p)
    take-P (Step.opens file flags path) b s p =
        frame.opens b (1 + b) s file flags path (omega arith) p
    take-P (Step.releases fh) b s p = frame.releases b s fh (free b s p)
    take-P (Step.locks c) b s p = frame.locks b s c (free b s p)
    take-P Step.stops b s p = frame.stops b s (free b s p)
    take-P (Step.closes order) b s p = frame.closes b s order (free b s p)
    take-P Step.forgets b s p = frame.forgets b s (free b s p)
    take-P Step.clears_attrs b s p = frame.clears_attrs b s (free b s p)
    take-P Step.clears_dirs b s p = frame.clears_dirs b s (free b s p)

    pub take_all-P :
        (xs : List (Step fs)) (b : ℕ) (s : FuseFs World File)
        → P (allocations xs + b) s
        → P b (take_all fs xs s)
    unfolding take_all allocations
    take_all-P [] b s p = free b s p
    take_all-P (x ∷ xs) b s p = take_all-P xs b (take fs x s) (
        take-P x (allocations xs + b) s (
          frame.weaker (allocates x + (allocations xs + b)) (allocates x + allocations xs + b) s
            (omega arith) p))

  -- Between any two steps of a call, the steps of other goroutines may come: after any sequence of
  -- steps from a new FuseFS, the state is as well formed as after whole calls, as long as the
  -- steps allocate too few numbers and handles to run through a 64-bit counter. A step is a method
  -- that holds a mutex throughout, an atomic store, or any change of the mounted filesystem or of
  -- the counters; what is put into a cache was answered by the mounted filesystem.
  pub take_all-Sound :
      (xs : List (Step fs)) (w : World) (opts : MountOptions) (b : ℕ)
      → 1 + allocations xs + b < 2 ^ 64
      → Sound b (take_all fs xs (new_fuse_fs w opts))
  take_all-Sound xs w opts b l =
      take_all-P (Sound-IsFrame fs) xs b (new_fuse_fs w opts)
        (new_fuse_fs-Sound fs (allocations xs + b) w opts (omega (arith, l)))

  -- The state comes from another by steps that leave so much of a number of allocations.
  record Reached (n : ℕ) (from : FuseFs World File) (b : ℕ) (s : FuseFs World File) : Type 0 where
    steps : List (Step fs)
    taken : take_all fs steps from ≡ s
    spent : allocations steps + b ≤ n

  pub take_all-++ :
      (xs ys : List (Step fs)) (s : FuseFs World File)
      → take_all fs (xs ++ ys) s ≡ take_all fs ys (take_all fs xs s)
  unfolding take_all
  take_all-++ [] ys s = refl
  take_all-++ (x ∷ xs) ys s = take_all-++ xs ys (take fs x s)

  pub allocations-++ :
      (xs ys : List (Step fs)) → allocations (xs ++ ys) ≡ allocations xs + allocations ys
  unfolding allocations
  allocations-++ [] ys = omega arith
  allocations-++ (x ∷ xs) ys = omega (arith, allocations-++ xs ys)

  module _ {n : ℕ} {from : FuseFs World File} where
    -- One more step.
    more :
        (x : Step fs) (b b' : ℕ) (s : FuseFs World File)
        → allocates x + b ≤ b'
        → Reached n from b' s
        → Reached n from b (take fs x s)
    unfolding take_all allocations
    more x b b' s l r = record {
      steps = r.steps ++ x ∷ [];
      taken = rw (take_all-++ r.steps (x ∷ []) from, r.taken) refl;
      spent = omega (arith, allocations-++ r.steps (x ∷ []), r.spent, l);
    }

  Reached-IsFrame : (n : ℕ) (from : FuseFs World File) → IsFrame fs (Reached n from)
  unfolding take allocates
  Reached-IsFrame n from = record {
    weaker = λ b b' s l r. record {
      steps = r.steps;
      taken = r.taken;
      spent = omega (arith, r.spent, l);
    };
    framed = λ b s w st r.
        more (Step.counts st) b b _ (omega arith) (more (Step.calls w) b b s (omega arith) r);
    names = λ b b' s path info l r. more (Step.names path info) b b' s (omega (arith, l)) r;
    recalls = λ b s now path r. more (Step.recalls now path) b b s (omega arith) r;
    caches = λ b s now path attr of r.
        subst
          (λ a. Reached n from b (record s { inode_manager = cache s.inode_manager now path a }))
          (sym of.filled)
          (more (Step.caches now path of.before of.info of.ino of.answered) b b s (omega arith) r);
    recalls_dir = λ b s now path r. more (Step.recalls_dir now path) b b s (omega arith) r;
    caches_dir = λ b s now path entries of r.
        more (Step.caches_dir now path entries of) b b s (omega arith) r;
    invalidates = λ b s path r. more (Step.invalidates path) b b s (omega arith) r;
    opens =
        λ b b' s file flags path l r. more (Step.opens file flags path) b b' s (omega (arith, l)) r;
    releases = λ b s fh r. more (Step.releases fh) b b s (omega arith) r;
    locks = λ b s c r. more (Step.locks c) b b s (omega arith) r;
    stops = λ b s r. more Step.stops b b s (omega arith) r;
    closes = λ b s order r. more (Step.closes order) b b s (omega arith) r;
    forgets = λ b s r. more Step.forgets b b s (omega arith) r;
    clears_attrs = λ b s r. more Step.clears_attrs b b s (omega arith) r;
    clears_dirs = λ b s r. more Step.clears_dirs b b s (omega arith) r;
  }

  -- Any sequence of handler calls and Unmounts does to the state what some sequence of these steps
  -- does, and they allocate no more numbers and handles than Readdir answers with entries, and two
  -- for each other call.
  pub run-Steps :
      (rs : List (Request World)) (s : FuseFs World File)
      → (xs : List (Step fs)) × (take_all fs xs s ≡ run fs rs s)
        × (allocations xs ≤ total_cost fs rs s)
  unfolding take_all allocations
  run-Steps rs s =
      let n = total_cost fs rs s in
      let start : Reached (n + 0) s (n + 0) s = record {
        steps = [];
        taken = refl;
        spent = omega arith;
      } in
      let r = run-P (Reached-IsFrame (n + 0) s) rs 0 s start in
      (r.steps, r.taken, omega (arith, r.spent))
