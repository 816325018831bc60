-- ===== src/Locks/Probe.antt =====
-- Getlk against Setlk: the test foretells the answer of the request.
use fusefs.Common.{
  ℕ, ◌≡◌, ◌≢◌, ◌↔◌, refl, String, Bool, true, false, List, [], ◌∷◌, arith, All, ◌==◌, if◌then◌else◌,
  ◌<◌, ltb, any, ◌⊎◌, Bool-cases, inl, inr,
}
use fusefs.Locks.{
  FileLock, PosixLock, LockManager, f_unlck, getlk, getlk_scan, locks_at, setlk, setlk_blocked,
  ranges_overlap, types_conflict, f_wrlck,
}
use fusefs.Errno.{success}
use fusefs.Locks.Bytes.{in_range, holds, covers}

-- Every lock has a type: no stored lock is of type F_UNLCK.
abbrev pub Typed : List PosixLock → Type 0
Typed = All (λ lock. lock.typ ≢ f_unlck)

getlk_scan-setlk_blocked :
    (owner : ℕ) (lk : FileLock) (locks : List PosixLock)
    → Typed locks
    → ((getlk_scan owner lk locks).typ == f_unlck)
      ≡ (if setlk_blocked owner lk locks then false else true)
unfolding getlk_scan setlk_blocked
getlk_scan-setlk_blocked owner lk [] h = refl
getlk_scan-setlk_blocked owner lk (lock ∷ locks) h =
    ground (arith, getlk_scan-setlk_blocked owner lk locks h.1)

-- For a request that is no unlock, and where no stored lock has the type F_UNLCK, Getlk reports
-- F_UNLCK exactly if Setlk would grant the same request.
pub getlk-setlk :
    (lm : LockManager) (path : String) (owner : ℕ) (lk : FileLock)
    → Typed (locks_at lm path)
    → lk.typ ≢ f_unlck
    → ((getlk lm path owner lk).0.typ ≡ f_unlck) ↔ ((setlk lm path owner lk).1 ≡ success)
unfolding getlk setlk locks_at setlk_blocked
getlk-setlk lm path owner lk h n =
    ground (arith, getlk_scan-setlk_blocked owner lk (locks_at lm path) h)

-- Bytes of a file: who holds which, with which type.
abbrev pub Bytes : Type 0
Bytes = ℕ → ℕ → ℕ → Bool

-- Another owner than `owner` holds a byte of the requested range with the type `typ`, and one of
-- the two types is F_WRLCK.
pub record Conflict (owner : ℕ) (lk : FileLock) (held : Bytes) (typ : ℕ) : Type 0 where
  pub holder : ℕ
  pub byte : ℕ
  pub other : holder ≢ owner
  pub requested : in_range lk.start lk.end byte ≡ true
  pub taken : held holder typ byte ≡ true
  pub exclusive : (lk.typ ≡ f_wrlck) ⊎ (typ ≡ f_wrlck)

abbrev bytes_of : List PosixLock → Bytes
bytes_of locks o t b = any (covers o t b) locks

-- Every lock has a byte.
abbrev pub Ranged : List PosixLock → Type 0
Ranged = All (λ lock. lock.start < lock.end)

abbrev common_byte : FileLock → PosixLock → ℕ
common_byte lk lock = if ltb lk.start lock.start then lock.start else lk.start

Conflict-cons :
    {owner : ℕ} {lk : FileLock} {typ : ℕ} (lock : PosixLock) (locks : List PosixLock)
    → Conflict owner lk (bytes_of locks) typ
    → Conflict owner lk (bytes_of (lock ∷ locks)) typ
Conflict-cons lock locks w = record {
  holder = w.holder;
  byte = w.byte;
  other = w.other;
  requested = w.requested;
  taken = ground arith;
  exclusive = w.exclusive;
}

Conflict-head :
    (owner : ℕ) (lk : FileLock) (lock : PosixLock) (locks : List PosixLock)
    → lk.start < lk.end
    → lock.start < lock.end
    → (lock.owner == owner) ≡ false
    → ranges_overlap lk.start lk.end lock.start lock.end ≡ true
    → types_conflict lk lock ≡ true
    → Conflict owner lk (bytes_of (lock ∷ locks)) lock.typ
unfolding ranges_overlap types_conflict
Conflict-head owner lk lock locks h k n o c = record {
  holder = lock.owner;
  byte = common_byte lk lock;
  other = ground arith;
  requested = ground arith;
  taken = ground arith;
  exclusive = ground arith;
}

getlk_scan-Conflict :
    (owner : ℕ) (lk : FileLock) (locks : List PosixLock)
    → lk.start < lk.end
    → Ranged locks
    → (getlk_scan owner lk locks).typ ≢ f_unlck
    → Conflict owner lk (bytes_of locks) (getlk_scan owner lk locks).typ
unfolding getlk_scan
getlk_scan-Conflict owner lk [] h r n = absurd (n refl)
getlk_scan-Conflict owner lk (lock ∷ locks) h r n =
    let rest = getlk_scan-Conflict owner lk locks h r.1 in
    elim (Bool-cases (lock.owner == owner)) [
      | inl same ↦ rw same (Conflict-cons lock locks (rest (rw same at n)))
      | inr other ↦ elim (Bool-cases (ranges_overlap lk.start lk.end lock.start lock.end)) [
        | inr apart ↦ rw (other, apart) (Conflict-cons lock locks (rest (rw (other, apart) at n)))
        | inl meet ↦ elim (Bool-cases (types_conflict lk lock)) [
          | inl clash ↦
              rw (other, meet, clash) (Conflict-head owner lk lock locks h r.0 other meet clash)
          | inr fine ↦
              rw (other, meet, fine) (Conflict-cons lock locks (rest (rw (other, meet, fine) at n)))
        ]
      ]
    ]

pub covers_conflict :
    (owner : ℕ) (lk : FileLock) (lock : PosixLock) (o b typ : ℕ)
    → o ≢ owner
    → in_range lk.start lk.end b ≡ true
    → covers o typ b lock ≡ true
    → (lk.typ ≡ f_wrlck) ⊎ (typ ≡ f_wrlck)
    → ((lock.owner == owner) ≡ false)
      × (ranges_overlap lk.start lk.end lock.start lock.end ≡ true)
      × (types_conflict lk lock ≡ true)
unfolding ranges_overlap types_conflict
covers_conflict owner lk lock o b typ n r c e = ground arith

Conflict-getlk_scan :
    (owner : ℕ) (lk : FileLock) (locks : List PosixLock) (o b typ : ℕ)
    → Typed locks
    → o ≢ owner
    → in_range lk.start lk.end b ≡ true
    → any (covers o typ b) locks ≡ true
    → (lk.typ ≡ f_wrlck) ⊎ (typ ≡ f_wrlck)
    → (getlk_scan owner lk locks).typ ≢ f_unlck
unfolding getlk_scan
Conflict-getlk_scan owner lk [] o b typ t n r c e = absurd (cc)
Conflict-getlk_scan owner lk (lock ∷ locks) o b typ t n r c e =
    elim (Bool-cases (covers o typ b lock)) [
      | inl here ↦
          let (other, meet, clash) = covers_conflict owner lk lock o b typ n r here e in
          rw (other, meet, clash) t.0
      | inr there ↦
          let rest = Conflict-getlk_scan owner lk locks o b typ t.1 n r (rw there at c) e in
          ground (arith, rest)
    ]

getlk-getlk_scan :
    (lm : LockManager) (path : String) (owner : ℕ) (lk : FileLock)
    → (getlk lm path owner lk).0 ≡ getlk_scan owner lk (locks_at lm path)
unfolding getlk getlk_scan locks_at
getlk-getlk_scan lm path owner lk = ground arith

-- For a request with a range that is not empty, and where no stored range is empty and no stored
-- type is F_UNLCK, Getlk reports a lock exactly if another owner holds a byte of the range and one
-- of the two types is F_WRLCK; the type it reports is that of such a byte.
pub getlk_lem :
    (lm : LockManager) (path : String) (owner : ℕ) (lk : FileLock)
    → lk.start < lk.end
    → Ranged (locks_at lm path)
    → Typed (locks_at lm path)
    → ((getlk lm path owner lk).0.typ ≢ f_unlck
        → Conflict owner lk (holds lm path) (getlk lm path owner lk).0.typ)
      × ((typ : ℕ)
          → Conflict owner lk (holds lm path) typ
          → (getlk lm path owner lk).0.typ ≢ f_unlck)
unfolding holds
getlk_lem lm path owner lk h r t = rw (getlk-getlk_scan lm path owner lk) (
  getlk_scan-Conflict owner lk (locks_at lm path) h r,
  λ typ c.
      Conflict-getlk_scan owner lk (locks_at lm path) c.holder c.byte typ t c.other c.requested
        c.taken c.exclusive,
)
