-- ===== src/Errno.antt =====
-- The values of syscall.Errno on Linux that the adapter returns; 0 is success.
use fusefs.Common.{ℕ}

abbrev pub success : ℕ
success = 0

abbrev pub enoent : ℕ
enoent = 2

abbrev pub eio : ℕ
eio = 5

abbrev pub ebadf : ℕ
ebadf = 9

abbrev pub eagain : ℕ
eagain = 11

-- On Linux the two are one number.
abbrev pub ewouldblock : ℕ
ewouldblock = 11

abbrev pub eacces : ℕ
eacces = 13

abbrev pub eexist : ℕ
eexist = 17

abbrev pub einval : ℕ
einval = 22

abbrev pub enotsup : ℕ
enotsup = 95

abbrev pub enotconn : ℕ
enotconn = 107

abbrev pub eperm : ℕ
eperm = 1

abbrev pub enotempty : ℕ
enotempty = 39
