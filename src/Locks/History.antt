-- ===== src/Locks/History.antt =====
-- Any sequence of lock requests, from the empty manager: what can never be.
use fusefs.Common.{
  ℕ, ◌≡◌, ◌≢◌, String, true, List, [], ◌∷◌, subst, Option-cases, sym, arith, inl, inr,
}
use fusefs.Common.Keys.{string_key}
use fusefs.Locks.{
  LockManager, FileLock, f_wrlck, lock_ex, setlk, release_owner, new_lock_manager, locks_at,
  store_locks, unlock_posix,
}
use fusefs.Locks.Flocks.{flock}
use fusefs.Locks.Bytes.{holds}
use fusefs.Locks.Modes.{mode, IsHeldAt, mode_free, mode_held, sole_owner}
use fusefs.Locks.Exclusion.{IsValid, setlk-IsValid, flock-posix_locks, release_owner-IsValid}
use fusefs.Common.Assoc.{lookup}
use fusefs.Locks.Held.{flock-IsHeldAt, release_owner-IsHeldAt}

-- The calls that change the state. Getlk changes nothing, and Setlkw is Setlk.
pub data Call : Type 0 where
  call_setlk : String → ℕ → FileLock → Call
  call_flock : String → ℕ → ℕ → Call
  call_release : ℕ → Call

unfoldable pub step : LockManager → Call → LockManager
step lm (call_setlk path owner lk) = (setlk lm path owner lk).0
step lm (call_flock path owner flags) = (flock lm path owner flags).0
step lm (call_release owner) = release_owner lm owner

unfoldable pub run : LockManager → List Call → LockManager
run lm [] = lm
run lm (c ∷ cs) = run (step lm c) cs

pub record Inv (lm : LockManager) : Type 0 where
  pub posix : IsValid lm
  pub flocks : IsHeldAt lm

pub new_lock_manager-Inv : Inv new_lock_manager
unfolding new_lock_manager holds locks_at lookup
new_lock_manager-Inv = record {
  posix = record { exclusive = λ q o o' t b h h'. cc; typed = λ q. tt; unique = tt };
  flocks = record { distinct = tt; states = λ q s e. cc };
}

-- Validity of the POSIX locks speaks of them alone.
transfer-IsValid :
    (lm lm' : LockManager) → lm'.posix_locks ≡ lm.posix_locks → IsValid lm → IsValid lm'
unfolding holds locks_at
transfer-IsValid lm lm' e v = subst (λ p. IsValid (record lm' { posix_locks = p })) (sym e) moved
  where
    moved : IsValid (record lm' { posix_locks = lm.posix_locks })
    moved = record { exclusive = v.exclusive; typed = v.typed; unique = v.unique }

transfer-IsHeldAt : (lm lm' : LockManager) → lm'.flocks ≡ lm.flocks → IsHeldAt lm → IsHeldAt lm'
transfer-IsHeldAt lm lm' e v = subst (λ f. IsHeldAt (record lm' { flocks = f })) (sym e) moved
  where
    moved : IsHeldAt (record lm' { flocks = lm.flocks })
    moved = record { distinct = v.distinct; states = v.states }

setlk-flocks :
    (lm : LockManager) (path : String) (owner : ℕ) (lk : FileLock)
    → (setlk lm path owner lk).0.flocks ≡ lm.flocks
unfolding setlk unlock_posix store_locks
setlk-flocks lm path owner lk = ground arith

pub step-Inv : (lm : LockManager) (c : Call) → Inv lm → Inv (step lm c)
unfolding step
step-Inv lm (call_setlk path owner lk) v = record {
  posix = setlk-IsValid lm path owner lk v.posix;
  flocks = transfer-IsHeldAt lm _ (setlk-flocks lm path owner lk) v.flocks;
}
step-Inv lm (call_flock path owner flags) v = record {
  posix = transfer-IsValid lm _ (flock-posix_locks lm path owner flags) v.posix;
  flocks = flock-IsHeldAt lm path owner flags v.flocks;
}
step-Inv lm (call_release owner) v = record {
  posix = release_owner-IsValid lm owner v.posix;
  flocks = release_owner-IsHeldAt lm owner v.flocks;
}

pub run-Inv : (lm : LockManager) (cs : List Call) → Inv lm → Inv (run lm cs)
unfolding run
run-Inv lm [] v = v
run-Inv lm (c ∷ cs) v = run-Inv (step lm c) cs (step-Inv lm c v)

-- After any sequence of Setlk, Flock and ReleaseOwner calls from the empty manager, if one owner
-- holds a byte of a file for writing and an owner holds it with any type, the two owners are one.
pub write_exclusive :
    (cs : List Call) (path : String) (o o' t b : ℕ)
    → holds (run new_lock_manager cs) path o f_wrlck b ≡ true
    → holds (run new_lock_manager cs) path o' t b ≡ true
    → o ≡ o'
write_exclusive cs path o o' t b =
    (run-Inv new_lock_manager cs new_lock_manager-Inv).posix.exclusive path o o' t b

mode_exclusive :
    (lm : LockManager) (path : String) (o o' : ℕ)
    → IsHeldAt lm
    → mode lm path o ≡ lock_ex
    → mode lm path o' ≢ 0
    → o ≡ o'
mode_exclusive lm path o o' v h h' = elim (Option-cases (lookup path lm.flocks)) [
  | inl e ↦ absurd (h' (mode_free lm path o' e))
  | inr (state, e) ↦
      let held = mode_held lm path o e in
      let held' = mode_held lm path o' e in
      let ex : state.lock_type ≡ lock_ex = ground arith in
      sole_owner state o o' ((v.states path state e).single ex) (ground arith) (ground arith)
]

-- After any sequence of Setlk, Flock and ReleaseOwner calls from the empty manager, if one owner
-- has the exclusive flock of a file and an owner has a flock of it, the two owners are one.
pub flock_exclusive :
    (cs : List Call) (path : String) (o o' : ℕ)
    → mode (run new_lock_manager cs) path o ≡ lock_ex
    → mode (run new_lock_manager cs) path o' ≢ 0
    → o ≡ o'
flock_exclusive cs path o o' =
    mode_exclusive (run new_lock_manager cs) path o o'
      (run-Inv new_lock_manager cs new_lock_manager-Inv).flocks
