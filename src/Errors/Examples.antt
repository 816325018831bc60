-- ===== src/Errors/Examples.antt =====
-- mapError on concrete chains: tests.
use fusefs.Common.{refl, some, ◌∷◌, [], ◌≡◌}
use fusefs.Errors.{map_error, Link, Sentinel, as_errno, errno_or_eio}
use fusefs.Errno.{enotempty, enoent, eexist, eperm, eacces, ewouldblock, eio}

map_error_test :
    (map_error (some (Link.opaque ∷ Link.sentinel Sentinel.not_exist ∷ [])) ≡ enoent)
    × (map_error (some (Link.errno enotempty ∷ [])) ≡ eexist)
    × (map_error (some (Link.errno eperm ∷ [])) ≡ eacces)
    × (map_error (some (Link.opaque ∷ Link.errno ewouldblock ∷ [])) ≡ ewouldblock)
    × (map_error (some (Link.opaque ∷ [])) ≡ eio)
unfolding map_error as_errno errno_or_eio
map_error_test = (refl, refl, refl, refl, refl)
