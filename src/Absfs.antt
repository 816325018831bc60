-- ===== src/Absfs.antt =====
-- The data that the adapter exchanges with the mounted filesystem (os.FileInfo, results of calls)
-- and with go-fuse (fuse.Attr, fuse.DirEntry).
use fusefs.Common.{ℕ, String, Bool, Option, ◌≡◌, ◌⊎◌, inl, inr, refl}
use fusefs.Errors.{GoError}

-- The owner that a *syscall.Stat_t names.
pub record Owner : Type 0 where
  pub uid : ℕ
  pub gid : ℕ

-- `mod_time` counts nanoseconds since the epoch; `sys` is what Sys gives if it is a Stat_t.
pub record FileInfo : Type 0 where
  pub name : String
  pub size : ℕ
  pub mode : ℕ
  pub mod_time : ℕ
  pub is_dir : Bool
  pub sys : Option Owner

pub record Attr : Type 0 where
  pub ino : ℕ
  pub size : ℕ
  pub mode : ℕ
  pub mtime : ℕ
  pub mtimensec : ℕ
  pub uid : ℕ
  pub gid : ℕ
  pub blocks : ℕ
  pub blksize : ℕ

pub record DirEntry : Type 0 where
  pub name : String
  pub ino : ℕ
  pub mode : ℕ

-- A pair of a value and a Go error: one of the two.
pub data Outcome (A : Type 0) : Type 0 where
  ok : A → Outcome A
  fail : GoError → Outcome A

pub Outcome-cases :
    {A : Type 0} (o : Outcome A) → ((a : A) × (o ≡ ok a)) ⊎ ((err : GoError) × (o ≡ fail err))
Outcome-cases (ok a) = inl (a, refl)
Outcome-cases (fail err) = inr (err, refl)
