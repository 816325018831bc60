-- ===== src/Common/Assoc.antt =====
-- Go's built-in `map` as an association list with one entry for each key.
use fusefs.Common.Tests.{is_none}
use fusefs.Common.Lists.{length}
use fusefs.Common.Keys.{Key}
use Prim.Native.Nat.{suc}
use mathlib.Core.Path.{◌≡◌, refl}
use mathlib.Core.Logic.{ite}
use mathlib.Core.Bool.{true}
use mathlib.Core.Option
use mathlib.Core.Option.{Option, none, some}
use mathlib.Core.List.{List, [], ◌∷◌}
use native.Mathlib.Omega.{arith}
use fusefs.Common.{◌≤◌, All, ite_rule, subst}

abbrev pub Assoc {ℓ} : Type ℓ → Type ℓ → Type ℓ
Assoc K V = List (K × V)

module _ {ℓ} {K V : Type ℓ} ⦃key : Key K⦄ where
  -- `m[k]`, with `none` for a missing key
  unfoldable pub lookup : K → Assoc K V → Option V
  lookup k [] = none
  lookup k ((j, v) ∷ m) = ite (key.dec j k) (some v) (lookup k m)

  -- `m[k] = v`
  unfoldable pub insert : K → V → Assoc K V → Assoc K V
  insert k v [] = (k, v) ∷ []
  insert k v ((j, w) ∷ m) = ite (key.dec j k) ((j, v) ∷ m) ((j, w) ∷ insert k v m)

  -- `delete(m, k)`
  unfoldable pub remove : K → Assoc K V → Assoc K V
  remove k [] = []
  remove k ((j, w) ∷ m) = ite (key.dec j k) (remove k m) ((j, w) ∷ remove k m)

  -- No key stands twice.
  abbrev pub IsUnique : Assoc K V → Type 0
  IsUnique [] = Unit
  IsUnique ((j, w) ∷ m) = (is_none (lookup j m) ≡ true) × IsUnique m

  pub lookup-insert :
      (k j : K) (v : V) (m : Assoc K V)
      → lookup j (insert k v m) ≡ ite (key.dec k j) (some v) (lookup j m)
  unfolding lookup insert
  lookup-insert k j v [] = refl
  lookup-insert k j v ((i, w) ∷ m) = ground (arith, lookup-insert k j v m)

  pub lookup-remove :
      (k j : K) (m : Assoc K V) → lookup j (remove k m) ≡ ite (key.dec k j) none (lookup j m)
  unfolding lookup remove
  lookup-remove k j [] = ground arith
  lookup-remove k j ((i, w) ∷ m) = ground (arith, lookup-remove k j m)

  pub insert-IsUnique : (k : K) (v : V) (m : Assoc K V) → IsUnique m → IsUnique (insert k v m)
  unfolding lookup insert
  insert-IsUnique k v [] u = ground arith
  insert-IsUnique k v ((i, w) ∷ m) u =
      ground (arith, insert-IsUnique k v m u.1, lookup-insert k i v m)

  pub remove-IsUnique : (k : K) (m : Assoc K V) → IsUnique m → IsUnique (remove k m)
  unfolding lookup remove
  remove-IsUnique k [] u = u
  remove-IsUnique k ((i, w) ∷ m) u = ground (arith, remove-IsUnique k m u.1, lookup-remove k i m)

  -- Keys that a test refuses are deleted, and the values of the others may change: a `range` loop
  -- that deletes or updates the entry it stands at.
  unfoldable pub update_all : (V → Option V) → Assoc K V → Assoc K V
  update_all f [] = []
  update_all f ((j, w) ∷ m) = elim (f w) [
    | none ↦ update_all f m
    | some w' ↦ (j, w') ∷ update_all f m
  ]

  lookup-update_all-none :
      (f : V → Option V) (k : K) (m : Assoc K V)
      → lookup k m ≡ none
      → lookup k (update_all f m) ≡ none
  unfolding lookup update_all Option.bind
  lookup-update_all-none f k [] e = refl
  lookup-update_all-none f k ((j, w) ∷ m) e = ground (arith, lookup-update_all-none f k m)

  pub update_all-IsUnique :
      (f : V → Option V) (m : Assoc K V) → IsUnique m → IsUnique (update_all f m)
  unfolding lookup update_all Option.bind
  update_all-IsUnique f [] u = u
  update_all-IsUnique f ((j, w) ∷ m) u =
      ground (arith, update_all-IsUnique f m u.1, lookup-update_all-none f j m)

  pub lookup-update_all :
      (f : V → Option V) (k : K) (m : Assoc K V)
      → IsUnique m
      → lookup k (update_all f m) ≡ Option.bind (lookup k m) f
  unfolding lookup update_all Option.bind
  lookup-update_all f k [] u = refl
  lookup-update_all f k ((j, w) ∷ m) u =
      ground (arith, lookup-update_all f k m u.1, lookup-update_all-none f k m)

  pub length-insert :
      (k : K) (v : V) (m : Assoc K V)
      → length (insert k v m) ≡ elim (lookup k m) [ none ↦ suc (length m) | some _ ↦ length m ]
  unfolding lookup insert
  length-insert k v [] = refl
  length-insert k v ((j, w) ∷ m) = ground (arith, length-insert k v m)

  pub length-remove-le : (k : K) (m : Assoc K V) → length (remove k m) ≤ length m
  unfolding remove
  length-remove-le k [] = omega arith
  length-remove-le k ((j, w) ∷ m) = ground (arith, length-remove-le k m)

  -- A property of all entries, which an insertion and a removal keep.
  pub insert-All {μ} :
      (P : K × V → Type μ) (k : K) (v : V) (m : Assoc K V)
      → ((j : K) → P (j, v))
      → All P m
      → All P (insert k v m)
  unfolding insert
  insert-All P k v [] p a = (p k, tt)
  insert-All P k v ((j, w) ∷ m) p a =
      ite_rule (All P) (key.dec j k) (λ _. (p j, a.1)) (λ _. (a.0, insert-All P k v m p a.1))

  pub remove-All {μ} : (P : K × V → Type μ) (k : K) (m : Assoc K V) → All P m → All P (remove k m)
  unfolding remove
  remove-All P k [] a = a
  remove-All P k ((j, w) ∷ m) a =
      ite_rule (All P) (key.dec j k) (λ _. remove-All P k m a.1) (λ _. (a.0, remove-All P k m a.1))

  pub remove_absent : (k : K) (m : Assoc K V) → lookup k m ≡ none → remove k m ≡ m
  unfolding lookup remove
  remove_absent k [] e = refl
  remove_absent k ((j, w) ∷ m) e = ground (arith, remove_absent k m)

  pub length-remove :
      (k : K) (m : Assoc K V) {v : V}
      → IsUnique m
      → lookup k m ≡ some v
      → suc (length (remove k m)) ≡ length m
  unfolding lookup remove
  length-remove k [] u e = cc
  length-remove k ((j, w) ∷ m) {v} u e =
      ground (arith, length-remove k m {v = v} u.1, remove_absent k m)

  -- What holds of all entries holds of the one that is found.
  pub lookup-All {μ} :
      (P : K × V → Type μ) (k : K) (m : Assoc K V) {v : V}
      → All P m
      → lookup k m ≡ some v
      → P (k, v)
  unfolding lookup
  lookup-All P k [] a e = absurd (cc e)
  lookup-All P k ((j, w) ∷ m) {v} a e = elim (key.dec j k) [
    | yes p ↦ subst P (ground arith) a.0
    | no n ↦ lookup-All P k m a.1 (ground arith)
  ]
