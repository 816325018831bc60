-- ===== src/Common/Keys.antt =====
-- Key types of Go maps: types with a decision of equality, as instances.
use Prim.Native.Nat.{ℕ}
use Prim.Native.String.{String}
use mathlib.Core.Path.{◌≡◌}
use mathlib.Core.Bool.{Bool, true, false}
use native.Mathlib.Decide.{ℕ_discrete}
use text.Mathlib.Text.{◌==◌}
use text.Mathlib.TextEquality.{eq_iff}

pub record Key {ℓ} (K : Type ℓ) : Type ℓ where
  pub dec : Discrete K

decide_by : (a b : String) (t : Bool) → (a == b) ≡ t → Dec (a ≡ b)
decide_by a b true e = yes ((eq_iff a b).0 e)
decide_by a b false e = no (λ p. cc ((eq_iff a b).1 p))

unfoldable pub string_discrete : Discrete String
unfolding decide_by
string_discrete a b = decide_by a b (a == b) (λ i. a == b)

instance abbrev pub nat_key : Key ℕ
nat_key = record { dec = ℕ_discrete }

instance abbrev pub string_key : Key String
string_key = record { dec = string_discrete }
