-- ===== src/Locks/Flocks.antt =====
-- locks.go: Flock, the BSD locks of whole files.
use fusefs.Common.{
  ℕ, String, Bool, true, false, ◌&&◌, Option, none, some, [], ◌∷◌, ◌==◌, if◌then◌else◌, length,
  has_flag,
}
use fusefs.Common.Keys.{string_key, nat_key}
use fusefs.Common.Assoc.{lookup, insert, remove}
use fusefs.Errno.{success, eagain, ewouldblock}
use fusefs.Locks.{FlockState, LockManager, drop_owner, lock_sh, lock_ex, lock_nb, lock_un}

unfoldable pub requested_type : ℕ → ℕ
requested_type flags = if has_flag flags lock_ex then lock_ex else lock_sh

-- The errno of a refused flock.
unfoldable pub would_block : ℕ → ℕ
would_block flags = if has_flag flags lock_nb then ewouldblock else eagain

-- `state.owners[owner]`, false for a missing owner
unfoldable pub owns : FlockState → ℕ → Bool
owns state owner = elim (lookup owner state.owners) [ none ↦ false | some held ↦ held ]

unfoldable pub set_flock : LockManager → String → FlockState → LockManager
set_flock lm path state = record lm { flocks = insert path state lm.flocks }

-- The end of flockUnlock: the path keeps the owners left, or loses its entry.
unfoldable pub set_dropped : LockManager → String → Option FlockState → LockManager
set_dropped lm path none = record lm { flocks = remove path lm.flocks }
set_dropped lm path (some state) = set_flock lm path state

unfoldable pub flock_unlock : LockManager → String → ℕ → LockManager × ℕ
flock_unlock lm path owner = elim (lookup path lm.flocks) [
  | none ↦ (lm, success)
  | some state ↦ (set_dropped lm path (drop_owner owner state), success)
]

-- The owner has the lock already: the same type, an upgrade or a downgrade.
unfoldable pub flock_again : LockManager → String → ℕ → FlockState → LockManager × ℕ
flock_again lm path flags state =
    if requested_type flags == state.lock_type
    then (lm, success)
    else if requested_type flags == lock_ex && state.lock_type == lock_sh
    then (if length state.owners == 1
        then (set_flock lm path (record state { lock_type = lock_ex }), success)
        else (lm, would_block flags))
    else if requested_type flags == lock_sh && state.lock_type == lock_ex
    then (set_flock lm path (record state { lock_type = lock_sh }), success)
    else (lm, success)

-- Other owners have the lock.
unfoldable pub flock_join : LockManager → String → ℕ → ℕ → FlockState → LockManager × ℕ
flock_join lm path owner flags state =
    if state.lock_type == lock_ex
    then (lm, would_block flags)
    else if requested_type flags == lock_sh
    then (set_flock lm path (record state { owners = insert owner true state.owners }), success)
    else (lm, would_block flags)

unfoldable pub flock : LockManager → String → ℕ → ℕ → LockManager × ℕ
flock lm path owner flags =
    if has_flag flags lock_un then flock_unlock lm path owner else elim (lookup path lm.flocks) [
      | none ↦ (
        set_flock lm path
            (record { lock_type = requested_type flags; owners = (owner, true) ∷ [] }),
        success,
      )
      | some state ↦
          if owns state owner
          then flock_again lm path flags state
          else flock_join lm path owner flags state
    ]
