-- ===== src/Locks/Modes.antt =====
-- The flocks of a file as the mode in which each owner holds it, and what Flock does to the modes.
use fusefs.Common.{
  ℕ, ◌≡◌, ◌≢◌, refl, String, Bool, true, false, List, [], ◌∷◌, some, none, arith, length, All,
  if◌then◌else◌, ◌<◌, ◌==◌, ◌⊎◌, ℕ_discrete, ite,
}
use fusefs.Common.Keys.{string_key, string_discrete, nat_key}
use fusefs.Locks.{FlockState, LockManager, lock_sh, lock_ex, drop_owner}
use fusefs.Locks.Flocks.{owns, set_flock, set_dropped}
use fusefs.Common.Assoc.{IsUnique, lookup, insert, remove, Assoc, lookup-insert, lookup-remove}

-- A state that the map may hold: some owner, one only if exclusive, and no false entry.
pub record IsHeld (state : FlockState) : Type 0 where
  pub unique : IsUnique state.owners
  pub marked : All (λ e. e.1 ≡ true) state.owners
  pub occupied : 0 < length state.owners
  pub typed : (state.lock_type ≡ lock_sh) ⊎ (state.lock_type ≡ lock_ex)
  pub single : state.lock_type ≡ lock_ex → length state.owners ≡ 1

pub record IsHeldAt (lm : LockManager) : Type 0 where
  pub distinct : IsUnique lm.flocks
  pub states : (q : String) (state : FlockState) → lookup q lm.flocks ≡ some state → IsHeld state

-- The mode in which the owner holds the file: LOCK_SH, LOCK_EX, or 0 for none.
unfoldable pub mode : LockManager → String → ℕ → ℕ
mode lm path owner = elim (lookup path lm.flocks) [
  | none ↦ 0
  | some state ↦ if owns state owner then state.lock_type else 0
]

pub owns-insert :
    (state : FlockState) (owner o : ℕ)
    → owns (record state { owners = insert owner true state.owners }) o
      ≡ (if owner == o then true else owns state o)
unfolding owns
owns-insert state owner o = ground (arith, lookup-insert owner o true state.owners)

owns-remove :
    (state : FlockState) (owner o : ℕ)
    → owns (record state { owners = remove owner state.owners }) o
      ≡ (if owner == o then false else owns state o)
unfolding owns
owns-remove state owner o = ground (arith, lookup-remove owner o state.owners)

-- The only owner of a state is its only key.
pub sole_owner :
    (state : FlockState) (owner o : ℕ)
    → length state.owners ≡ 1
    → owns state owner ≡ true
    → owns state o ≡ true
    → owner ≡ o
unfolding owns lookup
sole_owner state owner o l h h' = go state.owners l h h'
  where
    go :
        (m : Assoc ℕ Bool)
        → length m ≡ 1
        → elim (lookup owner m) [ none ↦ false | some held ↦ held ] ≡ true
        → elim (lookup o m) [ none ↦ false | some held ↦ held ] ≡ true
        → owner ≡ o
    go [] l h h' = absurd (omega arith)
    go ((k, v) ∷ []) l h h' = ground arith
    go (e ∷ f ∷ m) l h h' = absurd (omega arith)

-- Beside an owner of a state with several owners there is another one.
pub other_owner :
    (m : Assoc ℕ Bool) (owner : ℕ)
    → IsUnique m
    → All (λ e. e.1 ≡ true) m
    → 1 < length m
    → (o : ℕ) × (o ≢ owner) × (lookup o m ≡ some true)
unfolding lookup
other_owner [] owner u a l = absurd (omega arith)
other_owner (e ∷ []) owner u a l = absurd (omega arith)
other_owner ((k, v) ∷ (k', v') ∷ m) owner u a l = elim (ℕ_discrete k owner) [
  | yes p ↦ (k', ground arith, ground arith)
  | no n ↦ (k, n, ground arith)
]

pub first_owner :
    (m : Assoc ℕ Bool) → All (λ e. e.1 ≡ true) m → 0 < length m → (o : ℕ) × (lookup o m ≡ some true)
unfolding lookup
first_owner [] a l = absurd (omega arith)
first_owner ((k, v) ∷ m) a l = (k, ground arith)

pub mode-set_flock :
    (lm : LockManager) (path q : String) (state : FlockState) (o : ℕ)
    → mode (set_flock lm path state) q o
      ≡ ite (string_discrete path q) (if owns state o then state.lock_type else 0) (mode lm q o)
unfolding mode set_flock
mode-set_flock lm path q state o = ground (arith, lookup-insert path q state lm.flocks)

pub mode-remove :
    (lm : LockManager) (path q : String) (o : ℕ)
    → mode (record lm { flocks = remove path lm.flocks }) q o
      ≡ ite (string_discrete path q) 0 (mode lm q o)
unfolding mode
mode-remove lm path q o = ground (arith, lookup-remove path q lm.flocks)

length-eq-zero {ℓ} : {A : Type ℓ} (xs : List A) → (length xs == 0) ≡ true → xs ≡ []
length-eq-zero [] h = refl
length-eq-zero (x ∷ xs) h = absurd (ground arith)

pub drop_owner-owns :
    (owner o : ℕ) (state : FlockState)
    → elim (drop_owner owner state) [ none ↦ false | some state' ↦ owns state' o ]
      ≡ (if owner == o then false else owns state o)
unfolding drop_owner owns lookup
drop_owner-owns owner o state =
    ground (arith, length-eq-zero (remove owner state.owners), lookup-remove owner o state.owners)

pub owns-retype :
    (state : FlockState) (t o : ℕ) → owns (record state { lock_type = t }) o ≡ owns state o
unfolding owns
owns-retype state t o = refl

pub mode_held :
    (lm : LockManager) (path : String) (o : ℕ) {state : FlockState}
    → lookup path lm.flocks ≡ some state
    → mode lm path o ≡ (if owns state o then state.lock_type else 0)
unfolding mode
mode_held lm path o e = ground arith

pub mode_free :
    (lm : LockManager) (path : String) (o : ℕ) → lookup path lm.flocks ≡ none → mode lm path o ≡ 0
unfolding mode
mode_free lm path o e = ground arith

-- The state without an owner, in its path's place.
pub mode-drop_owner :
    (lm : LockManager) (path : String) (owner : ℕ) (q : String) (o : ℕ) {state : FlockState}
    → lookup path lm.flocks ≡ some state
    → mode (set_dropped lm path (drop_owner owner state)) q o
      ≡ ite (string_discrete path q) (if owner == o then 0 else mode lm q o) (mode lm q o)
unfolding set_dropped drop_owner
mode-drop_owner lm path owner q o {state} e = ground (
  arith,
  mode_held lm path o e,
  mode-remove lm path q o,
  mode-set_flock lm path q (record state { owners = remove owner state.owners }) o,
  owns-remove state owner o,
  drop_owner-owns owner o state,
)

pub owns_fresh :
    (t owner o : ℕ)
    → owns (record { lock_type = t; owners = (owner, true) ∷ [] }) o
      ≡ (if owner == o then true else false)
unfolding owns lookup
owns_fresh t owner o = ground arith
