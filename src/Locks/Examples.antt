-- ===== src/Locks/Examples.antt =====
-- The lock manager on concrete requests: tests, and the theorems at inputs that meet their
-- hypotheses.
use fusefs.Common.{All, ℕ, ◌≡◌, ◌≢◌, ◌↔◌, refl, true, false, List, [], ◌∷◌, arith, ℕ_discrete, ◌+◌}
use fusefs.Common.Keys.{string_key, nat_key, string_discrete}
use fusefs.Errno.{success, eagain}
use fusefs.Locks.{
  LockManager, FileLock, f_wrlck, f_rdlck, f_unlck, lock_ex, lock_sh, lock_nb, lock_un, setlk,
  getlk, release_owner, new_lock_manager, setlk_blocked, unlock_posix, unlock_scan, keep_before,
  keep_after, store_locks, locks_at, ranges_overlap, types_conflict, getlk_scan, drop_owner,
  keep_others, nonempty_locks,
}
use fusefs.Locks.Flocks.{
  flock, flock_unlock, flock_again, flock_join, set_flock, set_dropped, owns, requested_type,
  would_block,
}
use fusefs.Locks.Bytes.{holds}
use fusefs.Locks.Modes.{mode}
use fusefs.Locks.History.{Call, run, run-Inv, new_lock_manager-Inv}
use fusefs.Locks.History
use fusefs.Locks.Bytes
use fusefs.Locks.Probe
use fusefs.Locks.Grants
use fusefs.Locks.Waiting
use fusefs.Common.Assoc.{lookup, insert, remove, update_all}

program : Unit {0}
unfolding setlk setlk_blocked unlock_posix unlock_scan keep_before keep_after store_locks locks_at
    ranges_overlap types_conflict getlk getlk_scan flock flock_unlock flock_again flock_join
    set_flock set_dropped drop_owner owns requested_type would_block release_owner keep_others
    nonempty_locks new_lock_manager run History.step holds mode lookup insert remove update_all
    string_discrete ℕ_discrete
program = tt

abbrev range : ℕ → ℕ → ℕ → FileLock
range start end typ = record { start = start; end = end; typ = typ; pid = 40 }

-- Owner 1 writes 0..100 and gives 10..20 back; owner 2 reads 10..15. Owners 1 and 2 share the
-- flock of "b", owner 3 has that of "c".
abbrev calls : List Call
calls =
    Call.call_setlk "a" 1 (range 0 100 f_wrlck)
    ∷ Call.call_setlk "a" 1 (range 10 20 f_unlck)
    ∷ Call.call_setlk "a" 2 (range 10 15 f_rdlck)
    ∷ Call.call_flock "b" 1 lock_sh
    ∷ Call.call_flock "b" 2 (lock_sh + lock_nb)
    ∷ Call.call_flock "c" 3 lock_ex
    ∷ []

abbrev busy : LockManager
busy = run new_lock_manager calls

busy_test :
    (holds busy "a" 1 f_wrlck 9 ≡ true)
    × (holds busy "a" 1 f_wrlck 10 ≡ false)
    × (holds busy "a" 2 f_rdlck 10 ≡ true)
    × (mode busy "b" 2 ≡ lock_sh)
    × ((flock busy "b" 1 lock_ex).1 ≡ eagain)
unfolding program
busy_test = (refl, refl, refl, refl, refl)

busy-Inv : History.Inv busy
busy-Inv = run-Inv new_lock_manager calls new_lock_manager-Inv

write_exclusive_example : ◌≡◌ {A = ℕ} 1 1
unfolding program
write_exclusive_example = History.write_exclusive calls "a" 1 1 f_wrlck 9 refl refl

flock_exclusive_example : ◌≡◌ {A = ℕ} 3 3
unfolding program
flock_exclusive_example = History.flock_exclusive calls "c" 3 3 refl (λ e. absurd (omega arith))

holds-setlk_example : holds (setlk busy "a" 2 (range 12 18 f_wrlck)).0 "a" 2 f_wrlck 17 ≡ true
unfolding program
holds-setlk_example = Bytes.holds-setlk busy "a" 2 (range 12 18 f_wrlck) "a" 2 f_wrlck 17

getlk-setlk_example :
    ((getlk busy "a" 2 (range 0 5 f_rdlck)).0.typ ≡ f_unlck)
    ↔ ((setlk busy "a" 2 (range 0 5 f_rdlck)).1 ≡ success)
getlk-setlk_example =
    Probe.getlk-setlk busy "a" 2 (range 0 5 f_rdlck) (busy-Inv.posix.typed "a") (omega arith)

getlk_lem_example :
    ((getlk busy "a" 2 (range 0 5 f_rdlck)).0.typ ≢ f_unlck
      → Probe.Conflict 2
          (range 0 5 f_rdlck)
          (holds busy "a")
          (getlk busy "a" 2 (range 0 5 f_rdlck)).0.typ)
    × ((typ : ℕ)
        → Probe.Conflict 2 (range 0 5 f_rdlck) (holds busy "a") typ
        → (getlk busy "a" 2 (range 0 5 f_rdlck)).0.typ ≢ f_unlck)
unfolding program
getlk_lem_example =
    Probe.getlk_lem busy "a" 2 (range 0 5 f_rdlck) (omega arith) (omega arith)
      (busy-Inv.posix.typed "a")

flock-Answers_example : Grants.Answers busy "b" 1 lock_ex (flock busy "b" 1 lock_ex).1
flock-Answers_example = Grants.flock-Answers busy "b" 1 lock_ex busy-Inv.flocks refl

mode-flock_example : mode (flock busy "b" 2 lock_un).0 "b" 2 ≡ 0
unfolding string_discrete
mode-flock_example = Grants.mode-flock busy "b" 2 lock_un "b" 2 busy-Inv.flocks

others_hold : All (Waiting.IsOf 5 (1 ∷ 2 ∷ [])) (locks_at busy "a")
unfolding program
others_hold = (refl, (refl, (refl, tt)))

no_flock : (o : ℕ) → mode busy "a" o ≡ 0
unfolding program
no_flock o = refl

-- Owner 5 waits for the file "a" that owners 1 and 2 have locked, and for its flock.
granted_at_last_example :
    let lm = Waiting.release_all busy (1 ∷ 2 ∷ []) in
    ((setlk lm "a" 5 (range 0 100 f_wrlck)).1 ≡ success) × ((flock lm "a" 5 lock_ex).1 ≡ success)
granted_at_last_example =
    Waiting.granted_at_last calls "a" 5 lock_ex (range 0 100 f_wrlck) (1 ∷ 2 ∷ []) (omega arith)
      refl others_hold (λ o n out. no_flock o)
