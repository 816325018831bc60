-- ===== src/Operations/Flags.antt =====
-- mapOpenFlags keeps the flags that absfs knows, and no other bit.
use Prim.Native.Nat.{bit_or}
use fusefs.Common.{
  ℕ, ◌≡◌, refl, Bool, true, false, has_flag, if◌then◌else◌, ◌==◌, not, sym, ◌&&◌, arith,
}
use fusefs.Operations.{
  map_open_flags, o_rdonly, o_wronly, o_rdwr, o_append, o_create, o_trunc, o_excl,
}

-- The mapped flags, by what the tests of the bits answer.
abbrev flags_of : Bool → Bool → Bool → Bool → Bool → Bool → ℕ
flags_of w r a c t e =
    let m0 = if w then bit_or 0 o_wronly else if r then bit_or 0 o_rdwr else bit_or 0 o_rdonly in
    let m1 = if a then bit_or m0 o_append else m0 in
    let m2 = if c then bit_or m1 o_create else m1 in
    let m3 = if t then bit_or m2 o_trunc else m2 in if e then bit_or m3 o_excl else m3

abbrev Kept : ℕ → Bool → Bool → Bool → Bool → Bool → Bool → Type 0
Kept m w r a c t e =
    (has_flag m o_wronly ≡ w)
    × (has_flag m o_rdwr ≡ (if w then false else r))
    × (has_flag m o_append ≡ a)
    × (has_flag m o_create ≡ c)
    × (has_flag m o_trunc ≡ t)
    × (has_flag m o_excl ≡ e)
    × (map_open_flags m ≡ m)

==-eq : (a b : ℕ) → (a == b) ≡ true → a ≡ b
==-eq a b h = ground arith

abbrev same : Bool → Bool → Bool
same true b = b
same false b = not b

same-eq : (a b : Bool) → same a b ≡ true → a ≡ b
same-eq true b h = sym h
same-eq false b h = ground arith

abbrev test : Bool → Bool → Bool → Bool → Bool → Bool → Bool
test w r a c t e =
    let m = flags_of w r a c t e in
    same (has_flag m o_wronly) w
    && (same (has_flag m o_rdwr) (if w then false else r)
        && (same (has_flag m o_append) a
            && (same (has_flag m o_create) c
                && (same (has_flag m o_trunc) t
                    && (same (has_flag m o_excl) e && map_open_flags m == m)))))

-- A test of both values, and what it shows.
abbrev every : (Bool → Bool) → Bool
every p = p true && p false

every_sound : (p : Bool → Bool) → every p ≡ true → (b : Bool) → p b ≡ true
every_sound p h true = ground arith
every_sound p h false = ground arith

-- Every value of the six bits, by evaluation.
all_pass :
    every (λ w. every (λ r. every (λ a. every (λ c. every (λ t. every (λ e. test w r a c t e))))))
    ≡ true
unfolding map_open_flags
all_pass = refl

passes : (w r a c t e : Bool) → test w r a c t e ≡ true
passes w r a c t e =
    let h1 =
      every_sound
        (λ x.
          every
            (λ r'. every (λ a'. every (λ c'. every (λ t'. every (λ e'. test x r' a' c' t' e'))))))
        all_pass w in
    let h2 =
      every_sound
        (λ x. every (λ a'. every (λ c'. every (λ t'. every (λ e'. test w x a' c' t' e'))))) h1 r in
    let h3 =
      every_sound (λ x. every (λ c'. every (λ t'. every (λ e'. test w r x c' t' e')))) h2 a in
    let h4 = every_sound (λ x. every (λ t'. every (λ e'. test w r a x t' e'))) h3 c in
    let h5 = every_sound (λ x. every (λ e'. test w r a c x e')) h4 t in
    every_sound (test w r a c t) h5 e

both_parts : (a b : Bool) → (a && b) ≡ true → (a ≡ true) × (b ≡ true)
both_parts true b h = (refl, h)
both_parts false b h = absurd (cc h)

table : (w r a c t e : Bool) → Kept (flags_of w r a c t e) w r a c t e
table w r a c t e =
    let p0 = both_parts _ _ (passes w r a c t e) in
    let p1 = both_parts _ _ p0.1 in
    let p2 = both_parts _ _ p1.1 in
    let p3 = both_parts _ _ p2.1 in
    let p4 = both_parts _ _ p3.1 in
    let p5 = both_parts _ _ p4.1 in
    (
      same-eq _ _ p0.0,
      same-eq _ _ p1.0,
      same-eq _ _ p2.0,
      same-eq _ _ p3.0,
      same-eq _ _ p4.0,
      same-eq _ _ p5.0,
      ==-eq _ _ p5.1,
    )

-- The mapped flags have O_APPEND, O_CREAT, O_TRUNC and O_EXCL exactly if the flags do, O_WRONLY
-- exactly if the flags do, and O_RDWR exactly if the flags do and have no O_WRONLY; mapping them
-- again changes nothing.
map_open_flags_lem :
    (flags : ℕ)
    → let m = map_open_flags flags in
      (has_flag m o_wronly ≡ has_flag flags o_wronly)
      × (has_flag m o_rdwr ≡ (if has_flag flags o_wronly then false else has_flag flags o_rdwr))
      × (has_flag m o_append ≡ has_flag flags o_append)
      × (has_flag m o_create ≡ has_flag flags o_create)
      × (has_flag m o_trunc ≡ has_flag flags o_trunc)
      × (has_flag m o_excl ≡ has_flag flags o_excl)
      × (map_open_flags m ≡ m)
unfolding map_open_flags
map_open_flags_lem flags =
    table (has_flag flags o_wronly) (has_flag flags o_rdwr) (has_flag flags o_append)
      (has_flag flags o_create) (has_flag flags o_trunc) (has_flag flags o_excl)
