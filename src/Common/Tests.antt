-- ===== src/Common/Tests.antt =====
-- Boolean tests on the native numbers, the conditional, case splits that keep the equation.
use Prim.Native.Nat.{ℕ, ◌/◌, ◌%◌, compare, Ordering}
use mathlib.Core.Path.{◌≡◌, refl}
use mathlib.Core.Logic.{◌⊎◌, inl, inr, ite}
use mathlib.Core.Bool.{Bool, true, false}
use mathlib.Core.Option.{Option, none, some}

abbrev pub ltb : ℕ → ℕ → Bool
ltb a b = elim (compare a b) [ Ordering.lt ↦ true | _ ↦ false ]

abbrev pub leb : ℕ → ℕ → Bool
leb a b = elim (compare a b) [ Ordering.gt ↦ false | _ ↦ true ]

infix 50 ◌==◌
abbrev pub ◌==◌ : ℕ → ℕ → Bool
a == b = elim (compare a b) [ Ordering.eq ↦ true | _ ↦ false ]

infix 1 if◌then◌else◌
abbrev pub if◌then◌else◌ {ℓ} : {A : Type ℓ} → Bool → A → A → A
if true then x else y = x
if false then x else y = y

pub Bool-cases : (b : Bool) → (b ≡ true) ⊎ (b ≡ false)
Bool-cases true = inl refl
Bool-cases false = inr refl

pub Option-cases {ℓ} : {A : Type ℓ} (o : Option A) → (o ≡ none) ⊎ ((a : A) × (o ≡ some a))
Option-cases none = inl refl
Option-cases (some a) = inr (a, refl)

abbrev pub is_none {ℓ} : {A : Type ℓ} → Option A → Bool
is_none none = true
is_none (some a) = false

-- A predicate of a branching value, branch by branch.
pub if_rule {ℓ κ} :
    {A : Type ℓ} (P : A → Type κ) (b : Bool) {x y : A}
    → (b ≡ true → P x)
    → (b ≡ false → P y)
    → P (if b then x else y)
if_rule P true f g = f refl
if_rule P false f g = g refl

pub ite_rule {ℓ κ μ} :
    {A : Type ℓ} {Q : Type μ} (P : A → Type κ) (d : Dec Q) {x y : A}
    → (Q → P x)
    → (¬ Q → P y)
    → P (ite d x y)
ite_rule P (yes q) f g = f q
ite_rule P (no n) f g = g n

-- `flags & bit != 0` for a power of two
abbrev pub has_flag : ℕ → ℕ → Bool
has_flag flags bit = (flags / bit) % 2 == 1

-- What a computed decision refutes.
abbrev pub is_no : {Q : Type 0} → Dec Q → Bool
is_no (yes q) = false
is_no (no n) = true

pub refute : {Q : Type 0} (d : Dec Q) → is_no d ≡ true → ¬ Q
refute (yes q) h = absurd (cc h)
refute (no n) h = n
