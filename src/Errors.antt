-- ===== src/Errors.antt =====
-- errors.go: mapError. A Go error is the list of the links of its chain, in the order in which
-- errors.Is and errors.As visit them.
pub mod Chains
mod Examples
use fusefs.Common.{
  ℕ, Bool, true, false, ◌||◌, List, [], ◌∷◌, Option, none, some, any, ◌==◌, if◌then◌else◌,
}
use fusefs.Errno.{success, enoent, eexist, eacces, ebadf, einval, eio, eperm, enotempty}

pub data Sentinel : Type 0 where
  not_exist exist permission closed invalid eof : Sentinel

-- A sentinel of os or io, a syscall.Errno, or a link that is neither.
pub data Link : Type 0 where
  sentinel : Sentinel → Link
  errno : ℕ → Link
  opaque : Link

abbrev pub GoError : Type 0
GoError = List Link

abbrev same_sentinel : Sentinel → Sentinel → Bool
same_sentinel Sentinel.not_exist Sentinel.not_exist = true
same_sentinel Sentinel.exist Sentinel.exist = true
same_sentinel Sentinel.permission Sentinel.permission = true
same_sentinel Sentinel.closed Sentinel.closed = true
same_sentinel Sentinel.invalid Sentinel.invalid = true
same_sentinel Sentinel.eof Sentinel.eof = true
same_sentinel _ _ = false

-- The method Is of syscall.Errno.
abbrev pub errno_is : ℕ → Sentinel → Bool
errno_is n Sentinel.permission = n == eacces || n == eperm
errno_is n Sentinel.exist = n == eexist || n == enotempty
errno_is n Sentinel.not_exist = n == enoent
errno_is n _ = false

abbrev pub link_is : Sentinel → Link → Bool
link_is t (sentinel s) = same_sentinel s t
link_is t (errno n) = errno_is n t
link_is t opaque = false

-- errors.Is
abbrev pub errors_is : GoError → Sentinel → Bool
errors_is err target = any (link_is target) err

-- errors.As at a syscall.Errno
unfoldable pub as_errno : GoError → Option ℕ
as_errno [] = none
as_errno (errno n ∷ err) = some n
as_errno (l ∷ err) = as_errno err

unfoldable pub errno_or_eio : Option ℕ → ℕ
errno_or_eio none = eio
errno_or_eio (some n) = n

unfoldable pub map_error : Option GoError → ℕ
map_error none = success
map_error (some err) =
    if errors_is err Sentinel.not_exist
    then enoent
    else if errors_is err Sentinel.exist
    then eexist
    else if errors_is err Sentinel.permission
    then eacces
    else if errors_is err Sentinel.closed
    then ebadf
    else if errors_is err Sentinel.invalid
    then einval
    else if errors_is err Sentinel.eof
    then success
    else errno_or_eio (as_errno err)
