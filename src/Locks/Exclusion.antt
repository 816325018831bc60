-- ===== src/Locks/Exclusion.antt =====
-- No sequence of lock requests gives two owners conflicting POSIX locks on one byte.
use fusefs.Common.{
  ℕ, ◌≡◌, ◌≢◌, String, true, false, List, [], ◌∷◌, inl, inr, arith, any, Bool-cases, All-append,
  ◌==◌, ◌⊎◌, ℕ_discrete, Option-cases, ite_rule, if_rule,
}
use fusefs.Common.Keys.{string_key, string_discrete}
use fusefs.Locks.{
  FileLock, LockManager, f_unlck, f_wrlck, locks_at, setlk, setlk_blocked, release_owner, PosixLock,
  unlock_scan, keep_others, store_locks, unlock_posix, keep_before, keep_after,
}
use fusefs.Locks.Flocks.{flock, flock_unlock, flock_again, flock_join, set_flock, set_dropped}
use fusefs.Locks.Bytes.{covers, in_range, holds, holds-setlk, locks_at-setlk}
use fusefs.Locks.Probe.{Typed, covers_conflict}
use fusefs.Locks.Release.{holds-release_owner, locks_at-release_owner}
use fusefs.Common.Assoc.{IsUnique, update_all-IsUnique, remove-IsUnique, insert-IsUnique, lookup}
use fusefs.Errno.{success}

-- A byte that one owner has locked for writing is locked by no other owner.
abbrev pub Exclusive : LockManager → Type 0
Exclusive lm =
    (q : String) (o o' t b : ℕ) → holds lm q o f_wrlck b ≡ true → holds lm q o' t b ≡ true → o ≡ o'

pub record IsValid (lm : LockManager) : Type 0 where
  pub exclusive : Exclusive lm
  pub typed : (q : String) → Typed (locks_at lm q)
  pub unique : IsUnique lm.posix_locks

blocked_by :
    (owner : ℕ) (lk : FileLock) (o typ b : ℕ) (locks : List PosixLock)
    → setlk_blocked owner lk locks ≡ false
    → o ≢ owner
    → in_range lk.start lk.end b ≡ true
    → any (covers o typ b) locks ≡ true
    → (lk.typ ≡ f_wrlck) ⊎ (typ ≡ f_wrlck)
    → ⊥
unfolding setlk_blocked
blocked_by owner lk o typ b [] f n r c e = cc
blocked_by owner lk o typ b (lock ∷ locks) f n r c e = elim (Bool-cases (covers o typ b lock)) [
  | inl here ↦ ground (arith, covers_conflict owner lk lock o b typ n r here e)
  | inr there ↦ blocked_by owner lk o typ b locks (ground arith) n r (rw there at c) e
]

-- What a granted request gives its owner, no other owner has in conflict with it.
setlk-blocked_by :
    (lm : LockManager) (path : String) (owner : ℕ) (lk : FileLock) (o typ b : ℕ)
    → (lk.typ == f_unlck) ≡ false
    → ((setlk lm path owner lk).1 == success) ≡ true
    → in_range lk.start lk.end b ≡ true
    → holds lm path o typ b ≡ true
    → (lk.typ ≡ f_wrlck) ⊎ (typ ≡ f_wrlck)
    → o ≡ owner
unfolding setlk holds
setlk-blocked_by lm path owner lk o typ b u g r c e = elim (ℕ_discrete o owner) [
  | yes p ↦ p
  | no n ↦ absurd (blocked_by owner lk o typ b (locks_at lm path) (ground arith) n r c e)
]

setlk-Exclusive :
    (lm : LockManager) (path : String) (owner : ℕ) (lk : FileLock)
    → Exclusive lm
    → Exclusive (setlk lm path owner lk).0
setlk-Exclusive lm path owner lk x q o o' t b h h' = ground (
  arith,
  holds-setlk lm path owner lk q o f_wrlck b,
  holds-setlk lm path owner lk q o' t b,
  x q o o' t b,
  setlk-blocked_by lm path owner lk o f_wrlck b,
  setlk-blocked_by lm path owner lk o' t b,
)

unlock_scan-Typed :
    (owner : ℕ) (lk : FileLock) (locks : List PosixLock)
    → Typed locks
    → Typed (unlock_scan owner lk locks)
unfolding unlock_scan keep_before keep_after
unlock_scan-Typed owner lk [] t = t
unlock_scan-Typed owner lk (lock ∷ locks) t = ground (arith, unlock_scan-Typed owner lk locks t.1)

keep_others-Typed :
    (owner : ℕ) (locks : List PosixLock) → Typed locks → Typed (keep_others owner locks)
unfolding keep_others
keep_others-Typed owner [] t = t
keep_others-Typed owner (lock ∷ locks) t = ground (arith, keep_others-Typed owner locks t.1)

store_locks-IsUnique :
    (lm : LockManager) (path : String) (locks : List PosixLock)
    → IsUnique lm.posix_locks
    → IsUnique (store_locks lm path locks).posix_locks
unfolding store_locks
store_locks-IsUnique lm path [] u = remove-IsUnique path lm.posix_locks u
store_locks-IsUnique lm path (l ∷ ls) u = insert-IsUnique path (l ∷ ls) lm.posix_locks u

unlock_posix-IsUnique :
    (lm : LockManager) (path : String) (owner : ℕ) (lk : FileLock)
    → IsUnique lm.posix_locks
    → IsUnique (unlock_posix lm path owner lk).0.posix_locks
unfolding unlock_posix
unlock_posix-IsUnique lm path owner lk u = elim (Option-cases (lookup path lm.posix_locks)) [
  | inl e ↦ rw (e, unlock_posix) u
  | inr (ls, e) ↦ rw (e, unlock_posix) (store_locks-IsUnique lm path (unlock_scan owner lk ls) u)
]

setlk-Typed :
    (lm : LockManager) (path : String) (owner : ℕ) (lk : FileLock) (q : String)
    → Typed (locks_at lm path)
    → Typed (locks_at lm q)
    → Typed (locks_at (setlk lm path owner lk).0 q)
setlk-Typed lm path owner lk q t t' = rw (locks_at-setlk lm path owner lk q) (
    ite_rule Typed (string_discrete path q)
      (λ _.
        if_rule Typed (lk.typ == f_unlck) (λ _. unlock_scan-Typed owner lk (locks_at lm path) t)
          λ n.
            if_rule Typed (setlk_blocked owner lk (locks_at lm path)) (λ _. t)
              λ _. All-append _ (locks_at lm path) _ t (ground arith, tt))
      (λ _. t'))

setlk-IsUnique :
    (lm : LockManager) (path : String) (owner : ℕ) (lk : FileLock)
    → IsUnique lm.posix_locks
    → IsUnique (setlk lm path owner lk).0.posix_locks
unfolding setlk
setlk-IsUnique lm path owner lk u =
    if_rule After (lk.typ == f_unlck) (λ _. unlock_posix-IsUnique lm path owner lk u)
      λ _.
        if_rule After (setlk_blocked owner lk (locks_at lm path)) (λ _. u)
          λ _. insert-IsUnique path _ lm.posix_locks u
  where
    After : LockManager × ℕ → Type 0
    After r = IsUnique r.0.posix_locks

-- A request, granted or not, keeps the locks exclusive and well formed.
pub setlk-IsValid :
    (lm : LockManager) (path : String) (owner : ℕ) (lk : FileLock)
    → IsValid lm
    → IsValid (setlk lm path owner lk).0
setlk-IsValid lm path owner lk v = record {
  exclusive = setlk-Exclusive lm path owner lk v.exclusive;
  typed = λ q. setlk-Typed lm path owner lk q (v.typed path) (v.typed q);
  unique = setlk-IsUnique lm path owner lk v.unique;
}

-- So does the release of an owner.
pub release_owner-IsValid :
    (lm : LockManager) (owner : ℕ) → IsValid lm → IsValid (release_owner lm owner)
release_owner-IsValid lm owner v = record {
  exclusive = λ q o o' t b h h'. ground (
    arith,
    holds-release_owner lm owner q o f_wrlck b v.unique,
    holds-release_owner lm owner q o' t b v.unique,
    v.exclusive q o o' t b,
  );
  typed = λ q.
      rw (locks_at-release_owner lm owner q v.unique)
        (keep_others-Typed owner (locks_at lm q) (v.typed q));
  unique = unfold release_owner in update_all-IsUnique _ lm.posix_locks v.unique;
}

-- An flock is no POSIX lock.
pub flock-posix_locks :
    (lm : LockManager) (path : String) (owner flags : ℕ)
    → (flock lm path owner flags).0.posix_locks ≡ lm.posix_locks
unfolding flock flock_unlock set_dropped flock_again flock_join set_flock
flock-posix_locks lm path owner flags = ground arith
