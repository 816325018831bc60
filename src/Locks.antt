-- ===== src/Locks.antt =====
-- locks.go: the lock manager, its POSIX byte-range locks by path, and ReleaseOwner; Flock is in
-- Flocks. Each method holds the manager's mutex throughout, so it is one function from the state to
-- the state and its errno.
pub mod Flocks
pub mod Bytes
pub mod Release
pub mod Waiting
pub mod Exclusion
pub mod Probe
pub mod Modes
pub mod Grants
pub mod Held
pub mod History
mod Examples
use fusefs.Common.{
  ℕ, ◌/◌, ◌%◌, String, Bool, true, false, ◌&&◌, ◌||◌, Option, none, some, List, [], ◌∷◌, ◌++◌, ltb,
  ◌==◌, if◌then◌else◌, length, has_flag,
}
use fusefs.Common.Keys.{string_key, nat_key}
use fusefs.Common.Assoc.{Assoc, lookup, insert, remove, update_all}
use fusefs.Errno.{success, eagain, ewouldblock}

abbrev pub f_rdlck : ℕ
f_rdlck = 0

abbrev pub f_wrlck : ℕ
f_wrlck = 1

abbrev pub f_unlck : ℕ
f_unlck = 2

abbrev pub lock_sh : ℕ
lock_sh = 1

abbrev pub lock_ex : ℕ
lock_ex = 2

abbrev pub lock_nb : ℕ
lock_nb = 4

abbrev pub lock_un : ℕ
lock_un = 8

abbrev pub max_uint64 : ℕ
max_uint64 = 0xffff_ffff_ffff_ffff

-- go-fuse's `fuse.FileLock`
pub record FileLock : Type 0 where
  pub start : ℕ
  pub end : ℕ
  pub typ : ℕ
  pub pid : ℕ

pub record PosixLock : Type 0 where
  pub owner : ℕ
  pub start : ℕ
  pub end : ℕ
  pub typ : ℕ
  pub pid : ℕ

pub record FlockState : Type 0 where
  pub lock_type : ℕ
  pub owners : Assoc ℕ Bool

pub record LockManager : Type 0 where
  pub flocks : Assoc String FlockState
  pub posix_locks : Assoc String (List PosixLock)

unfoldable pub new_lock_manager : LockManager
new_lock_manager = record { flocks = []; posix_locks = [] }

unfoldable pub ranges_overlap : ℕ → ℕ → ℕ → ℕ → Bool
ranges_overlap start1 end1 start2 end2 =
    let e1 : ℕ = if end1 == max_uint64 then max_uint64 else end1 in
    let e2 : ℕ = if end2 == max_uint64 then max_uint64 else end2 in ltb start1 e2 && ltb start2 e1

-- The test on the types, in Getlk and in Setlk.
unfoldable pub types_conflict : FileLock → PosixLock → Bool
types_conflict lk lock = lk.typ == f_wrlck || lock.typ == f_wrlck

-- The loop of Getlk over the locks of the path.
unfoldable pub getlk_scan : ℕ → FileLock → List PosixLock → FileLock
getlk_scan owner lk [] = record lk { typ = f_unlck }
getlk_scan owner lk (lock ∷ locks) =
    let rest = getlk_scan owner lk locks in
    if lock.owner == owner
    then rest
    else if ranges_overlap lk.start lk.end lock.start lock.end
    then (if types_conflict lk lock
        then record { start = lock.start; end = lock.end; typ = lock.typ; pid = lock.pid }
        else rest)
    else rest

unfoldable pub getlk : LockManager → String → ℕ → FileLock → FileLock × ℕ
getlk lm path owner lk = elim (lookup path lm.posix_locks) [
  | none ↦ (record lk { typ = f_unlck }, success)
  | some locks ↦ (getlk_scan owner lk locks, success)
]

-- `lm.posixLocks[path]`, which is nil for a missing path
unfoldable pub locks_at : LockManager → String → List PosixLock
locks_at lm path = elim (lookup path lm.posix_locks) [ none ↦ [] | some locks ↦ locks ]

-- The loop of Setlk: whether it returns EAGAIN.
unfoldable pub setlk_blocked : ℕ → FileLock → List PosixLock → Bool
setlk_blocked owner lk [] = false
setlk_blocked owner lk (lock ∷ locks) =
    let rest = setlk_blocked owner lk locks in
    if lock.owner == owner
    then rest
    else if ranges_overlap lk.start lk.end lock.start lock.end
    then (if types_conflict lk lock then true else rest)
    else rest

-- The parts of an overlapping lock of the owner that an unlock keeps.
unfoldable pub keep_before : FileLock → PosixLock → List PosixLock → List PosixLock
keep_before lk lock rest =
    if ltb lock.start lk.start then record lock { end = lk.start } ∷ rest else rest

unfoldable pub keep_after : FileLock → PosixLock → List PosixLock → List PosixLock
keep_after lk lock rest =
    if ltb lk.end lock.end then record lock { start = lk.end } ∷ rest else rest

-- The loop of unlockPosix.
unfoldable pub unlock_scan : ℕ → FileLock → List PosixLock → List PosixLock
unlock_scan owner lk [] = []
unlock_scan owner lk (lock ∷ locks) =
    let rest = unlock_scan owner lk locks in
    if lock.owner == owner
    then (if ranges_overlap lk.start lk.end lock.start lock.end
        then keep_before lk lock (keep_after lk lock rest)
        else lock ∷ rest)
    else lock ∷ rest

-- A path whose list became empty is deleted.
unfoldable pub store_locks : LockManager → String → List PosixLock → LockManager
store_locks lm path [] = record lm { posix_locks = remove path lm.posix_locks }
store_locks lm path (l ∷ ls) = record lm { posix_locks = insert path (l ∷ ls) lm.posix_locks }

unfoldable pub unlock_posix : LockManager → String → ℕ → FileLock → LockManager × ℕ
unlock_posix lm path owner lk = elim (lookup path lm.posix_locks) [
  | none ↦ (lm, success)
  | some locks ↦ (store_locks lm path (unlock_scan owner lk locks), success)
]

unfoldable pub setlk : LockManager → String → ℕ → FileLock → LockManager × ℕ
setlk lm path owner lk =
    if lk.typ == f_unlck
    then unlock_posix lm path owner lk
    else if setlk_blocked owner lk (locks_at lm path)
    then (lm, eagain)
    else (
      record lm {
        posix_locks =
            insert path
              (locks_at lm path
                ++ record {
                  owner = owner;
                  start = lk.start;
                  end = lk.end;
                  typ = lk.typ;
                  pid = lk.pid;
                }
                  ∷ [])
              lm.posix_locks;
      },
      success,
    )

unfoldable pub setlkw : LockManager → String → ℕ → FileLock → LockManager × ℕ
setlkw lm path owner lk = setlk lm path owner lk

-- `delete(state.owners, owner)`, with `none` where no owner is left
unfoldable pub drop_owner : ℕ → FlockState → Option FlockState
drop_owner owner state =
    let rest = remove owner state.owners in
    if length rest == 0 then none else some (record state { owners = rest })

-- The locks of other owners, in the loop of ReleaseOwner.
unfoldable pub keep_others : ℕ → List PosixLock → List PosixLock
keep_others owner [] = []
keep_others owner (lock ∷ locks) =
    let rest = keep_others owner locks in if lock.owner == owner then rest else lock ∷ rest

unfoldable pub nonempty_locks : List PosixLock → Option (List PosixLock)
nonempty_locks [] = none
nonempty_locks (l ∷ ls) = some (l ∷ ls)

unfoldable pub release_owner : LockManager → ℕ → LockManager
release_owner lm owner = record {
  flocks = update_all (drop_owner owner) lm.flocks;
  posix_locks = update_all (λ locks. nonempty_locks (keep_others owner locks)) lm.posix_locks;
}
