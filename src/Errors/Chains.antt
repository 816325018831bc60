-- ===== src/Errors/Chains.antt =====
-- What mapError makes of chains of errors.
use fusefs.Common.{ℕ, ◌≡◌, refl, true, [], ◌∷◌, some, arith, All, ◌⊎◌, ◌++◌}
use fusefs.Errors.{opaque, GoError, errors_is, as_errno, map_error, Sentinel, errno_or_eio}
use fusefs.Errno.{success}

-- Some errno of the chain is the number.
abbrev pub Carries : GoError → ℕ → Type 0
Carries err n = as_errno err ≡ some n

-- mapError makes an error a success only if its chain has io.EOF, or its first errno is 0.
map_error-success :
    (err : GoError)
    → map_error (some err) ≡ success
    → (errors_is err Sentinel.eof ≡ true) ⊎ Carries err 0
unfolding map_error errno_or_eio
map_error-success err h = ground arith

-- Wrapping an error in links that are no sentinel of os or io and no errno does not change what
-- mapError makes of it.
pub map_error_wrapped :
    (outer err : GoError)
    → All (λ l. l ≡ opaque) outer
    → map_error (some (outer ++ err)) ≡ map_error (some err)
unfolding map_error as_errno
map_error_wrapped [] err a = refl
map_error_wrapped (opaque ∷ outer) err a = map_error_wrapped outer err a.1
map_error_wrapped (l ∷ outer) err a = absurd (cc (a.0))
