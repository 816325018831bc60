-- ===== src/Operations/Xattrs.antt =====
-- xattr.go: the handlers Getxattr, Setxattr, Listxattr and Removexattr. `path` is the path of the
-- node; names, values and buffers are lists of bytes.
use fusefs.Common.{
  ℕ, ◌+◌, ◌%◌, ◌^◌, String, List, [], ◌∷◌, Option, none, some, ltb, length, if◌then◌else◌, ◌++◌,
  ◌-◌, take,
}
use fusefs.Errno.{enotsup}
use mathlib.Core.Option
use fusefs.Fuse.{
  ◌>>=◌, ◌>>◌, count_operation, attempt, attempt_status, check_mounted, pure, require, FileSystem,
  XattrFs, Handler,
}

-- The bytes of the null-terminated list, and its size as the handler sums it up.
unfoldable pub name_list : List (List ℕ) → List ℕ
name_list [] = []
name_list (attr ∷ attrs) = attr ++ 0 ∷ name_list attrs

unfoldable pub total_size : List (List ℕ) → ℕ
total_size [] = 0
total_size (attr ∷ attrs) = length attr + 1 + total_size attrs

-- The loop of Listxattr on a buffer with so much room: `none` is the panic of an index out of range.
unfoldable pub fill : ℕ → List (List ℕ) → Option (List ℕ)
fill room [] = some []
fill room (attr ∷ attrs) =
    let rest = fill (room - length attr - 1) attrs in
    if ltb (length attr) room then Option.map (λ bytes. attr ++ 0 ∷ bytes) rest else none

module _ {World File : Type 0} (fs : FileSystem World File) where
  abbrev H : Type 0 → Type 0
  H A = Handler World File A

  -- Every xattr handler begins so.
  unfoldable pub xattr_fs : H (XattrFs World)
  xattr_fs = do count_operation; check_mounted; require fs.xattrs enotsup

  -- The length, and what is copied into a buffer of the given size; nothing if there is no buffer.
  unfoldable pub getxattr : String → List ℕ → Option ℕ → H (ℕ × List ℕ)
  getxattr path attr dest = do
    xattrs ← xattr_fs
    value ← attempt (xattrs.get_xattr path attr)
    elim dest [
      | none ↦ pure (length value % 2 ^ 32, [])
      | some room ↦ let copied = take room value in pure (length copied % 2 ^ 32, copied)
    ]

  unfoldable pub setxattr : String → List ℕ → List ℕ → ℕ → H (Unit {0})
  setxattr path attr bytes flags = do
    xattrs ← xattr_fs
    attempt_status (xattrs.set_xattr path attr bytes flags)

  unfoldable pub removexattr : String → List ℕ → H (Unit {0})
  removexattr path attr = do xattrs ← xattr_fs; attempt_status (xattrs.remove_xattr path attr)

  -- The length, and what is written into a buffer of the given size; `none` is a panic.
  unfoldable pub listxattr : String → Option ℕ → H (Option (ℕ × List ℕ))
  listxattr path dest = do
    xattrs ← xattr_fs
    attrs ← attempt (xattrs.list_xattr path)
    elim dest [
      | none ↦ pure (some (total_size attrs % 2 ^ 32, []))
      | some room ↦ pure (Option.map (λ bytes. (length bytes % 2 ^ 32, bytes)) (fill room attrs))
    ]
