-- ===== src/Locks/Held.antt =====
-- Every operation keeps the flock states well formed.
use mathlib.Core.Option
use fusefs.Common.{
  ℕ, ◌≡◌, ◌≢◌, refl, String, true, [], ◌∷◌, some, none, arith, Option-cases, inl, inr, subst, ◌⊎◌,
  if_rule, length, ◌==◌, if◌then◌else◌, ◌<◌, ◌&&◌, has_flag,
}
use fusefs.Common.Keys.{string_key, string_discrete, nat_key}
use fusefs.Locks.{FlockState, LockManager, lock_sh, lock_ex, lock_un, drop_owner, release_owner}
use fusefs.Locks.Flocks.{
  flock, owns, flock_unlock, requested_type, set_flock, flock_again, flock_join, set_dropped,
}
use fusefs.Locks.Modes.{mode, IsHeld, IsHeldAt, drop_owner-owns}
use fusefs.Common.Assoc.{
  remove, insert-IsUnique, remove-IsUnique, lookup, lookup-remove, insert, lookup-insert,
  length-remove-le, insert-All, update_all-IsUnique, length-insert, lookup-update_all, remove-All,
}

set_flock-IsHeldAt :
    (lm : LockManager) (path : String) (state : FlockState)
    → IsHeldAt lm
    → IsHeld state
    → IsHeldAt (set_flock lm path state)
unfolding set_flock
set_flock-IsHeldAt lm path state v h = record {
  distinct = insert-IsUnique path state lm.flocks v.distinct;
  states = λ q s e. elim (string_discrete path q) [
    | yes p ↦ subst IsHeld (ground (arith, lookup-insert path q state lm.flocks)) h
    | no n ↦ v.states q s (ground (arith, lookup-insert path q state lm.flocks))
  ];
}

remove-IsHeldAt :
    (lm : LockManager) (path : String)
    → IsHeldAt lm
    → IsHeldAt (record lm { flocks = remove path lm.flocks })
remove-IsHeldAt lm path v = record {
  distinct = remove-IsUnique path lm.flocks v.distinct;
  states = λ q s e. v.states q s (ground (arith, lookup-remove path q lm.flocks));
}

drop_owner-IsHeld :
    (owner : ℕ) (state s : FlockState) → IsHeld state → drop_owner owner state ≡ some s → IsHeld s
unfolding drop_owner
drop_owner-IsHeld owner state s h e = subst IsHeld (ground arith) (
    let rest = remove owner state.owners in
    let small = length-remove-le owner state.owners in
    let some_left : 0 < length rest = ground arith in
    record {
      unique = remove-IsUnique owner state.owners h.unique;
      marked = remove-All _ owner state.owners h.marked;
      occupied = some_left;
      typed = h.typed;
      single = λ x. omega (arith, h.single x);
    })

set_dropped-IsHeldAt :
    (lm : LockManager) (path : String) (owner : ℕ) (state : FlockState)
    → IsHeldAt lm
    → IsHeld state
    → IsHeldAt (set_dropped lm path (drop_owner owner state))
unfolding set_dropped
set_dropped-IsHeldAt lm path owner state v h = elim (Option-cases (drop_owner owner state)) [
  | inl e ↦ rw (e, set_dropped) (remove-IsHeldAt lm path v)
  | inr (s, e) ↦
      rw (e, set_dropped) (set_flock-IsHeldAt lm path s v (drop_owner-IsHeld owner state s h e))
]

flock_unlock-IsHeldAt :
    (lm : LockManager) (path : String) (owner : ℕ)
    → IsHeldAt lm
    → IsHeldAt (flock_unlock lm path owner).0
unfolding flock_unlock
flock_unlock-IsHeldAt lm path owner v = elim (Option-cases (lookup path lm.flocks)) [
  | inl e ↦ rw (e, flock_unlock) v
  | inr (state, e) ↦
      rw (e, flock_unlock) (set_dropped-IsHeldAt lm path owner state v (v.states path state e))
]

retype-IsHeld :
    (state : FlockState) (t : ℕ)
    → IsHeld state
    → (t ≡ lock_sh) ⊎ (t ≡ lock_ex)
    → (t ≡ lock_ex → length state.owners ≡ 1)
    → IsHeld (record state { lock_type = t })
retype-IsHeld state t h typed single = record {
  unique = h.unique;
  marked = h.marked;
  occupied = h.occupied;
  typed = typed;
  single = single;
}

abbrev AfterHeld : LockManager × ℕ → Type 0
AfterHeld r = IsHeldAt r.0

flock_again-IsHeldAt :
    (lm : LockManager) (path : String) (flags : ℕ) (state : FlockState)
    → IsHeldAt lm
    → IsHeld state
    → IsHeldAt (flock_again lm path flags state).0
unfolding flock_again
flock_again-IsHeldAt lm path flags state v h =
    if_rule AfterHeld (requested_type flags == state.lock_type) (λ _. v)
      λ _.
        if_rule AfterHeld (requested_type flags == lock_ex && state.lock_type == lock_sh)
          (λ _.
            if_rule AfterHeld (length state.owners == 1)
              (λ one.
                set_flock-IsHeldAt lm path _ v
                  (retype-IsHeld state lock_ex h (inr refl) (λ _. ground arith)))
              (λ _. v))
          λ _.
            if_rule AfterHeld (requested_type flags == lock_sh && state.lock_type == lock_ex)
              (λ _.
                set_flock-IsHeldAt lm path _ v
                  (retype-IsHeld state lock_sh h (inl refl) (λ x. absurd (omega arith))))
              (λ _. v)

insert-IsHeld :
    (state : FlockState) (owner : ℕ)
    → IsHeld state
    → state.lock_type ≢ lock_ex
    → IsHeld (record state { owners = insert owner true state.owners })
insert-IsHeld state owner h sh = record {
  unique = insert-IsUnique owner true state.owners h.unique;
  marked = insert-All _ owner true state.owners (λ j. refl) h.marked;
  occupied = ground (arith, length-insert owner true state.owners, h.occupied);
  typed = h.typed;
  single = λ x. absurd (sh x);
}

flock_join-IsHeldAt :
    (lm : LockManager) (path : String) (owner flags : ℕ) (state : FlockState)
    → IsHeldAt lm
    → IsHeld state
    → IsHeldAt (flock_join lm path owner flags state).0
unfolding flock_join
flock_join-IsHeldAt lm path owner flags state v h =
    if_rule AfterHeld (state.lock_type == lock_ex) (λ _. v)
      λ sh.
        if_rule AfterHeld (requested_type flags == lock_sh)
          (λ _. set_flock-IsHeldAt lm path _ v (insert-IsHeld state owner h (λ x. ground arith)))
          (λ _. v)

fresh-IsHeld :
    (owner flags : ℕ)
    → IsHeld (record { lock_type = requested_type flags; owners = (owner, true) ∷ [] })
unfolding requested_type lookup
fresh-IsHeld owner flags = record {
  unique = (refl, tt);
  marked = (refl, tt);
  occupied = omega arith;
  typed = ground arith;
  single = λ _. refl;
}

-- A request, granted or not, keeps every flock state well formed: it has an owner, and only one
-- if it is exclusive.
pub flock-IsHeldAt :
    (lm : LockManager) (path : String) (owner flags : ℕ)
    → IsHeldAt lm
    → IsHeldAt (flock lm path owner flags).0
unfolding flock
flock-IsHeldAt lm path owner flags v =
    if_rule AfterHeld (has_flag flags lock_un) (λ _. flock_unlock-IsHeldAt lm path owner v)
      λ _. elim (Option-cases (lookup path lm.flocks)) [
        | inl e ↦ rw e (set_flock-IsHeldAt lm path _ v (fresh-IsHeld owner flags))
        | inr (state, e) ↦
            let h = v.states path state e in
            rw e (
              if_rule AfterHeld (owns state owner)
                (λ _. flock_again-IsHeldAt lm path flags state v h)
                (λ _. flock_join-IsHeldAt lm path owner flags state v h))
      ]

pub release_owner-IsHeldAt :
    (lm : LockManager) (owner : ℕ) → IsHeldAt lm → IsHeldAt (release_owner lm owner)
unfolding release_owner Option.bind
release_owner-IsHeldAt lm owner v = record {
  distinct = update_all-IsUnique (drop_owner owner) lm.flocks v.distinct;
  states = λ q s e.
      let l = lookup-update_all (drop_owner owner) q lm.flocks v.distinct in
      elim (Option-cases (lookup q lm.flocks)) [
        | inl f ↦ absurd (ground (arith, l))
        | inr (state, f) ↦ drop_owner-IsHeld owner state s (v.states q state f) (ground (arith, l))
      ];
}

drop_owner-lock_type :
    (owner : ℕ) (state : FlockState)
    → elim (drop_owner owner state) [ none ↦ state.lock_type | some s ↦ s.lock_type ]
      ≡ state.lock_type
unfolding drop_owner
drop_owner-lock_type owner state = ground arith

-- After ReleaseOwner the owner has no flock of any file, and every other owner has the mode it
-- had, where the flocks are well formed.
pub mode-release_owner :
    (lm : LockManager) (owner : ℕ) (q : String) (o : ℕ)
    → IsHeldAt lm
    → mode (release_owner lm owner) q o ≡ (if owner == o then 0 else mode lm q o)
unfolding release_owner mode Option.bind
mode-release_owner lm owner q o v =
    let l = lookup-update_all (drop_owner owner) q lm.flocks v.distinct in
    elim (Option-cases (lookup q lm.flocks)) [
      | inl f ↦ ground (arith, l)
      | inr (state, f) ↦
          ground (arith, l, f, drop_owner-owns owner o state, drop_owner-lock_type owner state)
    ]
