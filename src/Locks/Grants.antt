-- ===== src/Locks/Grants.antt =====
-- When Flock grants a request, and what the modes are afterwards.
use fusefs.Common.{
  ℕ, ◌≡◌, ◌≢◌, refl, String, true, false, [], ◌∷◌, some, arith, ite, if◌then◌else◌, ◌==◌,
  Option-cases, inl, inr, ◌⊎◌, ℕ_discrete, if_rule, length, sym, has_flag,
}
use fusefs.Common.Keys.{string_key, string_discrete, nat_key}
use fusefs.Errno.{success, eagain}
use fusefs.Locks.{FlockState, LockManager, lock_sh, lock_ex, lock_un}
use fusefs.Locks.Flocks.{
  flock, owns, flock_unlock, requested_type, flock_again, flock_join, would_block,
}
use fusefs.Locks.Modes.{
  mode, IsHeld, IsHeldAt, mode-set_flock, sole_owner, owns-insert, mode_free, mode_held,
  mode-drop_owner, owns-retype, owns_fresh, first_owner, other_owner,
}
use fusefs.Common.Assoc.{lookup, insert}

-- The mode of an owner after another owner's or its own request.
mode-flock_unlock :
    (lm : LockManager) (path : String) (owner : ℕ) (q : String) (o : ℕ)
    → mode (flock_unlock lm path owner).0 q o
      ≡ ite (string_discrete path q) (if owner == o then 0 else mode lm q o) (mode lm q o)
unfolding flock_unlock
mode-flock_unlock lm path owner q o = elim (Option-cases (lookup path lm.flocks)) [
  | inl e ↦ rw (e, flock_unlock) (ground (arith, mode_free lm path o e))
  | inr (state, e) ↦ rw (e, flock_unlock) (mode-drop_owner lm path owner q o e)
]

mode-flock_again :
    (lm : LockManager) (path : String) (owner flags : ℕ) (state : FlockState) (q : String) (o : ℕ)
    → IsHeld state
    → lookup path lm.flocks ≡ some state
    → owns state owner ≡ true
    → mode (flock_again lm path flags state).0 q o
      ≡ ite
          (string_discrete path q)
          (if owner == o
            then if (flock_again lm path flags state).1 == success
              then requested_type flags
              else mode lm q o
            else mode lm q o)
          (mode lm q o)
unfolding flock_again requested_type would_block
mode-flock_again lm path owner flags state q o v e h = ground (
  arith,
  mode-set_flock lm path q (record state { lock_type = lock_ex }) o,
  mode-set_flock lm path q (record state { lock_type = lock_sh }) o,
  mode_held lm path o e,
  owns-retype state lock_ex o,
  owns-retype state lock_sh o,
  sole_owner state owner o,
  v.typed,
  v.single,
)

mode-flock_join :
    (lm : LockManager) (path : String) (owner flags : ℕ) (state : FlockState) (q : String) (o : ℕ)
    → IsHeld state
    → lookup path lm.flocks ≡ some state
    → owns state owner ≡ false
    → mode (flock_join lm path owner flags state).0 q o
      ≡ ite
          (string_discrete path q)
          (if owner == o
            then if (flock_join lm path owner flags state).1 == success
              then requested_type flags
              else mode lm q o
            else mode lm q o)
          (mode lm q o)
unfolding flock_join requested_type would_block
mode-flock_join lm path owner flags state q o v e h = ground (
  arith,
  mode-set_flock lm path q (record state { owners = insert owner true state.owners }) o,
  mode_held lm path o e,
  owns-insert state owner o,
  v.typed,
)

-- Where the flocks are well formed, Flock changes the mode of its owner on its file alone: an
-- unlock ends it, a granted request sets it to the requested mode, a refused one leaves it.
pub mode-flock :
    (lm : LockManager) (path : String) (owner flags : ℕ) (q : String) (o : ℕ)
    → IsHeldAt lm
    → mode (flock lm path owner flags).0 q o
      ≡ ite
          (string_discrete path q)
          (if owner == o
            then if has_flag flags lock_un
              then 0
              else if (flock lm path owner flags).1 == success
              then requested_type flags
              else mode lm q o
            else mode lm q o)
          (mode lm q o)
unfolding flock
mode-flock lm path owner flags q o v = elim (Option-cases (lookup path lm.flocks)) [
  | inl e ↦
      let fresh : FlockState = record {
        lock_type = requested_type flags;
        owners = (owner, true) ∷ [];
      } in
      rw (e, flock)
        (ground (
          arith,
          mode-flock_unlock lm path owner q o,
          mode-set_flock lm path q fresh o,
          owns_fresh (requested_type flags) owner o,
          mode_free lm path o e,
        ))
  | inr (state, e) ↦
      rw (e, flock)
        (ground (
          arith,
          mode-flock_unlock lm path owner q o,
          mode-flock_again lm path owner flags state q o (v.states path state e) e,
          mode-flock_join lm path owner flags state q o (v.states path state e) e,
        ))
]

-- Another owner has the file in a mode that conflicts with the requested one.
pub record Blocker (lm : LockManager) (path : String) (owner flags : ℕ) : Type 0 where
  pub holder : ℕ
  pub other : holder ≢ owner
  pub holding : mode lm path holder ≢ 0
  pub conflict : (requested_type flags ≡ lock_ex) ⊎ (mode lm path holder ≡ lock_ex)

-- The answer tells which of the two is the case.
abbrev pub Answers : LockManager → String → ℕ → ℕ → ℕ → Type 0
Answers lm path owner flags errno =
    ((errno ≡ success)
      × ((o : ℕ)
          → o ≢ owner
          → mode lm path o ≢ 0
          → (requested_type flags ≡ lock_sh) × (mode lm path o ≡ lock_sh)))
    ⊎ ((errno ≡ eagain) × Blocker lm path owner flags)

module _ (lm : LockManager) (path : String) (owner flags : ℕ) {state : FlockState}
    (v : IsHeld state) (e : lookup path lm.flocks ≡ some state) where
  block :
      (o : ℕ)
      → o ≢ owner
      → lookup o state.owners ≡ some true
      → (requested_type flags ≡ lock_ex) ⊎ (state.lock_type ≡ lock_ex)
      → Blocker lm path owner flags
  unfolding owns
  block o n h c =
      let held : mode lm path o ≡ state.lock_type = ground (arith, mode_held lm path o e) in
      record { holder = o; other = n; holding = ground (arith, v.typed); conflict = ground arith }

  not_owner : (o : ℕ) → lookup o state.owners ≡ some true → owns state owner ≡ false → o ≢ owner
  unfolding owns
  not_owner o l h = ground arith

  flock_again-Answers :
      owns state owner ≡ true → Answers lm path owner flags (flock_again lm path flags state).1
  unfolding flock_again requested_type would_block
  flock_again-Answers h = elim (ℕ_discrete (length state.owners) 1) [
    | yes one ↦ inl (
      ground (arith, v.typed),
      λ o n m.
          absurd (n (sym (sole_owner state owner o one h (ground (arith, mode_held lm path o e))))),
    )
    | no many ↦
        let (o, n, l) =
          other_owner state.owners owner v.unique v.marked (omega (arith, v.occupied)) in
        elim (ℕ_discrete (requested_type flags) lock_ex) [
          | yes ex ↦ inr (ground (arith, v.typed, v.single), block o n l (inl ex))
          | no sh ↦ inl (
            ground (arith, v.typed, v.single),
            λ o n m. (ground arith, ground (arith, mode_held lm path o e, v.typed, v.single)),
          )
        ]
  ]

  flock_join-Answers :
      owns state owner ≡ false
      → Answers lm path owner flags (flock_join lm path owner flags state).1
  unfolding flock_join requested_type would_block
  flock_join-Answers h =
      let (o, l) = first_owner state.owners v.marked v.occupied in
      let n : o ≢ owner = not_owner o l h in
      elim (ℕ_discrete state.lock_type lock_ex) [
        | yes ex ↦ inr (ground arith, block o n l (inr ex))
        | no sh ↦ elim (ℕ_discrete (requested_type flags) lock_ex) [
          | yes ex ↦ inr (ground arith, block o n l (inl ex))
          | no sh' ↦ inl (
            ground arith,
            λ o' n' m. (ground arith, ground (arith, mode_held lm path o' e, v.typed)),
          )
        ]
      ]

-- Where the flocks are well formed, a Flock that is no unlock answers success, and then the
-- request and every other owner of the file's flock, if there is one, are shared; or it answers
-- EAGAIN and there is another owner whose mode conflicts with the request.
pub flock-Answers :
    (lm : LockManager) (path : String) (owner flags : ℕ)
    → IsHeldAt lm
    → has_flag flags lock_un ≡ false
    → Answers lm path owner flags (flock lm path owner flags).1
unfolding flock
flock-Answers lm path owner flags v u = elim (Option-cases (lookup path lm.flocks)) [
  | inl e ↦ inl (rw (u, e, flock) refl, λ o n m. absurd (m (mode_free lm path o e)))
  | inr (state, e) ↦
      rw (u, e, flock)
        (if_rule (λ (r : LockManager × ℕ). Answers lm path owner flags r.1) (owns state owner)
          (flock_again-Answers lm path owner flags (v.states path state e) e)
          (flock_join-Answers lm path owner flags (v.states path state e) e))
]
