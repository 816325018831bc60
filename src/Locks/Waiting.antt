-- ===== src/Locks/Waiting.antt =====
-- A refused request is granted once the owners that stand in its way have been released.
use fusefs.Common.{
  ℕ, ◌≡◌, ◌≢◌, refl, String, true, false, ◌||◌, List, [], ◌∷◌, All, any, ◌==◌, arith, inl, inr,
  Bool-cases, has_flag,
}
use fusefs.Locks.Grants.{flock-Answers}
use fusefs.Locks.Held.{release_owner-IsHeldAt, mode-release_owner}
use fusefs.Locks.Modes.{IsHeldAt, mode}
use fusefs.Locks.History.{Call, run, run-Inv, new_lock_manager-Inv}
use fusefs.Common.Keys.{string_key}
use fusefs.Common.Assoc.{IsUnique, update_all-IsUnique}
use fusefs.Errno.{success}
use fusefs.Locks.{
  LockManager, FileLock, PosixLock, setlk, release_owner, keep_others, locks_at, setlk_blocked,
  new_lock_manager, f_unlck, lock_un,
}
use fusefs.Locks.Flocks.{flock}
use fusefs.Locks.Release.{locks_at-release_owner}

-- The owners are released one after another, as when the programs that wait for the file's locks
-- see their holders end.
unfoldable pub release_all : LockManager → List ℕ → LockManager
release_all lm [] = lm
release_all lm (o ∷ others) = release_all (release_owner lm o) others

-- The lock is of one of these owners.
abbrev pub IsOf : ℕ → List ℕ → PosixLock → Type 0
IsOf owner others lock = (lock.owner == owner || any (λ o. o == lock.owner) others) ≡ true

keep_others-All :
    (owner o : ℕ) (others : List ℕ) (locks : List PosixLock)
    → All (IsOf owner (o ∷ others)) locks
    → All (IsOf owner others) (keep_others o locks)
unfolding keep_others
keep_others-All owner o others [] h = tt
keep_others-All owner o others (lock ∷ locks) h =
    let rest = keep_others-All owner o others locks h.1 in
    elim (Bool-cases (lock.owner == o)) [ inl e ↦ rw e rest | inr e ↦ rw e (ground arith, rest) ]

setlk_blocked-own :
    (owner : ℕ) (lk : FileLock) (locks : List PosixLock)
    → All (IsOf owner []) locks
    → setlk_blocked owner lk locks ≡ false
unfolding setlk_blocked
setlk_blocked-own owner lk [] h = refl
setlk_blocked-own owner lk (lock ∷ locks) h = ground (arith, setlk_blocked-own owner lk locks h.1)

release_owner-IsUnique :
    (lm : LockManager) (o : ℕ) → IsUnique lm.posix_locks → IsUnique (release_owner lm o).posix_locks
unfolding release_owner
release_owner-IsUnique lm o u = update_all-IsUnique _ lm.posix_locks u

setlk-release_all :
    (lm : LockManager) (path : String) (owner : ℕ) (lk : FileLock) (others : List ℕ)
    → lk.typ ≢ f_unlck
    → IsUnique lm.posix_locks
    → All (IsOf owner others) (locks_at lm path)
    → (setlk (release_all lm others) path owner lk).1 ≡ success
unfolding release_all setlk
setlk-release_all lm path owner lk [] n u h =
    ground (arith, setlk_blocked-own owner lk (locks_at lm path) h)
setlk-release_all lm path owner lk (o ∷ others) n u h =
    setlk-release_all (release_owner lm o) path owner lk others n (release_owner-IsUnique lm o u) (
      rw (locks_at-release_owner lm o path u) (keep_others-All owner o others (locks_at lm path) h))

-- With no other owner's flock in the way, a request is granted.
flock_free :
    (lm : LockManager) (path : String) (owner flags : ℕ)
    → IsHeldAt lm
    → has_flag flags lock_un ≡ false
    → ((o : ℕ) → o ≢ owner → mode lm path o ≡ 0)
    → (flock lm path owner flags).1 ≡ success
flock_free lm path owner flags v u free = elim (flock-Answers lm path owner flags v u) [
  | inl (granted, _) ↦ granted
  | inr (_, b) ↦ absurd (b.holding (free b.holder b.other))
]

flock-release_all :
    (lm : LockManager) (path : String) (owner flags : ℕ) (others : List ℕ)
    → has_flag flags lock_un ≡ false
    → IsHeldAt lm
    → ((o : ℕ) → o ≢ owner → any (λ x. x == o) others ≡ false → mode lm path o ≡ 0)
    → (flock (release_all lm others) path owner flags).1 ≡ success
unfolding release_all
flock-release_all lm path owner flags [] u v free =
    flock_free lm path owner flags v u (λ o n. free o n refl)
flock-release_all lm path owner flags (x ∷ others) u v free =
    flock-release_all (release_owner lm x) path owner flags others u (release_owner-IsHeldAt lm x v)
      (λ o n out. ground (arith, mode-release_owner lm x path o v, free o n))

-- After any sequence of Setlk, Flock and ReleaseOwner calls from the empty manager, a Setlk and a
-- Flock of any owner, neither an unlock, are granted once all other owners that hold a lock or a
-- flock of the file have been released, in any order.
pub granted_at_last :
    (cs : List Call) (path : String) (owner flags : ℕ) (lk : FileLock) (others : List ℕ)
    → lk.typ ≢ f_unlck
    → has_flag flags lock_un ≡ false
    → All (IsOf owner others) (locks_at (run new_lock_manager cs) path)
    → ((o : ℕ)
        → o ≢ owner
        → any (λ x. x == o) others ≡ false
        → mode (run new_lock_manager cs) path o ≡ 0)
    → let lm = release_all (run new_lock_manager cs) others in
      ((setlk lm path owner lk).1 ≡ success) × ((flock lm path owner flags).1 ≡ success)
granted_at_last cs path owner flags lk others n u h free =
    let v = run-Inv new_lock_manager cs new_lock_manager-Inv in
    (
      setlk-release_all (run new_lock_manager cs) path owner lk others n v.posix.unique h,
      flock-release_all (run new_lock_manager cs) path owner flags others u v.flocks free,
    )
