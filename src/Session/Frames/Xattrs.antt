-- ===== src/Session/Frames/Xattrs.antt =====
-- The handlers of extended attributes keep a framed predicate.
use fusefs.Common.{String, ℕ, Option, List}
use fusefs.Fuse.{FuseFs, FileSystem}
use fusefs.Session.Frames.{IsFrame}
use fusefs.Session.Frames.Rules.{
  Keeps, bind-Keeps, option-Keeps, pure-Keeps, attempt-Keeps, status-Keeps, require-Keeps,
  opening-Keeps,
}
use fusefs.Operations.Xattrs.{xattr_fs, getxattr, setxattr, listxattr, removexattr}

module _ {World File : Type 0} {fs : FileSystem World File} {P : ℕ → FuseFs World File → Type 0}
    (frame : IsFrame fs P) where
  xattr_fs-Keeps : Keeps P (xattr_fs fs)
  unfolding xattr_fs
  xattr_fs-Keeps = opening-Keeps frame (require-Keeps frame _ _)

  pub getxattr-Keeps :
      (path : String) (attr : List ℕ) (dest : Option ℕ) → Keeps P (getxattr fs path attr dest)
  unfolding getxattr
  getxattr-Keeps path attr dest = bind-Keeps frame xattr_fs-Keeps (λ xattrs.
      bind-Keeps frame (attempt-Keeps frame _)
        (λ value. option-Keeps frame dest (pure-Keeps frame _) (λ room. pure-Keeps frame _)))

  pub setxattr-Keeps :
      (path : String) (attr bytes : List ℕ) (flags : ℕ)
      → Keeps P (setxattr fs path attr bytes flags)
  unfolding setxattr
  setxattr-Keeps path attr bytes flags =
      bind-Keeps frame xattr_fs-Keeps (λ xattrs. status-Keeps frame _)

  pub listxattr-Keeps : (path : String) (dest : Option ℕ) → Keeps P (listxattr fs path dest)
  unfolding listxattr
  listxattr-Keeps path dest = bind-Keeps frame xattr_fs-Keeps (λ xattrs.
      bind-Keeps frame (attempt-Keeps frame _)
        (λ attrs. option-Keeps frame dest (pure-Keeps frame _) (λ room. pure-Keeps frame _)))

  pub removexattr-Keeps : (path : String) (attr : List ℕ) → Keeps P (removexattr fs path attr)
  unfolding removexattr
  removexattr-Keeps path attr = bind-Keeps frame xattr_fs-Keeps (λ xattrs. status-Keeps frame _)
