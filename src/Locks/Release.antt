-- ===== src/Locks/Release.antt =====
-- ReleaseOwner drops every lock of one owner, and no other lock.
use fusefs.Common.{ℕ, ◌≡◌, String, false, List, [], ◌∷◌, arith, any, ◌==◌, if◌then◌else◌}
use fusefs.Locks.Bytes.{covers, holds}
use fusefs.Common.Keys.{string_key}
use fusefs.Locks.{PosixLock, LockManager, locks_at, keep_others, nonempty_locks, release_owner}
use mathlib.Core.Option
use fusefs.Common.Assoc.{IsUnique, lookup-update_all}

any-keep_others :
    (owner o t b : ℕ) (locks : List PosixLock)
    → any (covers o t b) (keep_others owner locks)
      ≡ (if o == owner then false else any (covers o t b) locks)
unfolding keep_others
any-keep_others owner o t b [] = ground arith
any-keep_others owner o t b (lock ∷ locks) = ground (arith, any-keep_others owner o t b locks)

-- The locks of each file after a ReleaseOwner.
pub locks_at-release_owner :
    (lm : LockManager) (owner : ℕ) (q : String)
    → IsUnique lm.posix_locks
    → locks_at (release_owner lm owner) q ≡ keep_others owner (locks_at lm q)
unfolding release_owner locks_at Option.bind nonempty_locks keep_others
locks_at-release_owner lm owner q u = ground (
  arith,
  lookup-update_all (λ locks. nonempty_locks (keep_others owner locks)) q lm.posix_locks u,
)

-- After ReleaseOwner the owner holds no byte of any file, and every other owner holds what it
-- held, where each path has one list of locks.
pub holds-release_owner :
    (lm : LockManager) (owner : ℕ) (q : String) (o t b : ℕ)
    → IsUnique lm.posix_locks
    → holds (release_owner lm owner) q o t b ≡ (if o == owner then false else holds lm q o t b)
unfolding holds
holds-release_owner lm owner q o t b u =
    ground (arith, locks_at-release_owner lm owner q u, any-keep_others owner o t b (locks_at lm q))
