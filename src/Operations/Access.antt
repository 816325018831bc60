-- ===== src/Operations/Access.antt =====
-- access.go: what a permission check grants.
use fusefs.Common.{ℕ, ◌≡◌, ◌↔◌, ◌<◌, true, false, Bool-cases, arith, refl, has_flag, inl, inr, ◌⊎◌}
use fusefs.Absfs.{FileInfo}
use fusefs.Errno.{success, eacces}
use fusefs.Operations.Attributes.{Caller, check_perm, lacks, permitted}

-- The bit is granted if it is asked for.
unfoldable pub Grants : ℕ → ℕ → ℕ → Type 0
Grants mask perm bit = has_flag mask bit ≡ true → has_flag perm bit ≡ true

granted : (mask perm bit : ℕ) → lacks mask perm bit ≡ false → Grants mask perm bit
unfolding lacks Grants
granted mask perm bit h a = ground arith

refused : (mask perm bit : ℕ) → Grants mask perm bit → lacks mask perm bit ≡ false
unfolding lacks Grants
refused mask perm bit g = elim (Bool-cases (has_flag mask bit)) [
  | inl e ↦ rw (e, g e)
  | inr e ↦ rw e
]

no_flag : (bit : ℕ) → has_flag 0 bit ≡ false
no_flag bit = ground arith

check_perm-lt : (info : FileInfo) (caller : Caller) → check_perm info caller < 8
unfolding check_perm
check_perm-lt info caller = ground arith

answers :
    (mask : ℕ) (info : FileInfo) (caller : Caller)
    → (permitted mask info caller ≡ success) ⊎ (permitted mask info caller ≡ eacces)
unfolding permitted
answers mask info caller = ground arith

sound :
    (mask : ℕ) (info : FileInfo) (caller : Caller) (bit : ℕ)
    → permitted mask info caller ≡ success
    → (bit ≡ 4) ⊎ ((bit ≡ 2) ⊎ (bit ≡ 1))
    → lacks mask (check_perm info caller) bit ≡ false
unfolding permitted lacks
sound mask info caller bit h b = ground arith

complete :
    (mask : ℕ) (info : FileInfo) (caller : Caller)
    → lacks mask (check_perm info caller) 4 ≡ false
    → lacks mask (check_perm info caller) 2 ≡ false
    → lacks mask (check_perm info caller) 1 ≡ false
    → permitted mask info caller ≡ success
unfolding permitted
complete mask info caller r w x = ground arith

-- The permission check of Access answers 0 or EACCES, and 0 exactly if each of R_OK, W_OK and X_OK
-- that the mask has is among the three permission bits of the caller's class.
permitted_lem :
    (mask : ℕ) (info : FileInfo) (caller : Caller)
    → let perm = check_perm info caller in
      (perm < 8)
      × ((permitted mask info caller ≡ success) ⊎ (permitted mask info caller ≡ eacces))
      × ((permitted mask info caller ≡ success)
          ↔ (Grants mask perm 4 × Grants mask perm 2 × Grants mask perm 1))
permitted_lem mask info caller =
    let perm = check_perm info caller in
    (
      check_perm-lt info caller,
      answers mask info caller,
      (
        λ h. (
          granted mask perm 4 (sound mask info caller 4 h (inl refl)),
          granted mask perm 2 (sound mask info caller 2 h (inr (inl refl))),
          granted mask perm 1 (sound mask info caller 1 h (inr (inr refl))),
        ),
        λ g.
            complete mask info caller (refused mask perm 4 g.0) (refused mask perm 2 g.1)
              (refused mask perm 1 g.2),
      ),
    )
