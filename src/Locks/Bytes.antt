-- ===== src/Locks/Bytes.antt =====
-- What the POSIX locks mean byte by byte, and what each operation does to that meaning.
use fusefs.Common.{
  ℕ, ◌≡◌, refl, String, Bool, true, false, ◌&&◌, ◌||◌, not, List, [], ◌∷◌, ◌++◌, inl, inr, arith,
  any, ltb, leb, ◌==◌, ◌<◌, Bool-cases, ite, if◌then◌else◌,
}
use fusefs.Common.Keys.{string_key, string_discrete}
use fusefs.Locks.{
  FileLock, PosixLock, LockManager, locks_at, unlock_scan, ranges_overlap, keep_before, keep_after,
  store_locks, unlock_posix, setlk, f_unlck, setlk_blocked,
}
use fusefs.Common.Assoc.{lookup-remove, lookup-insert}
use fusefs.Errno.{success}

abbrev pub in_range : ℕ → ℕ → ℕ → Bool
in_range start end byte = leb start byte && ltb byte end

-- The lock gives its owner a byte with a type.
abbrev pub covers : ℕ → ℕ → ℕ → PosixLock → Bool
covers owner typ byte lock =
    lock.owner == owner && (lock.typ == typ && in_range lock.start lock.end byte)

-- The owner holds a lock of the type on the byte of the file.
unfoldable pub holds : LockManager → String → ℕ → ℕ → ℕ → Bool
holds lm path owner typ byte = any (covers owner typ byte) (locks_at lm path)

pub any-append {ℓ} :
    {A : Type ℓ} (p : A → Bool) (xs ys : List A) → any p (xs ++ ys) ≡ (any p xs || any p ys)
any-append p [] ys = refl
any-append p (x ∷ xs) ys = ground (arith, any-append p xs ys)

pub no_overlap :
    (s e s' e' b : ℕ)
    → ranges_overlap s e s' e' ≡ false
    → (in_range s' e' b && in_range s e b) ≡ false
unfolding ranges_overlap
no_overlap s e s' e' b h = ground arith

pub overlap_bounds : (s e s' e' : ℕ) → ranges_overlap s e s' e' ≡ true → (s < e') × (s' < e)
unfolding ranges_overlap
overlap_bounds s e s' e' h = ground arith

any-keep_before :
    (o t b : ℕ) (lk : FileLock) (lock : PosixLock) (rest : List PosixLock)
    → lk.start < lock.end
    → any (covers o t b) (keep_before lk lock rest)
      ≡ (covers o t b lock && ltb b lk.start || any (covers o t b) rest)
unfolding keep_before
any-keep_before o t b lk lock rest h = ground arith

any-keep_after :
    (o t b : ℕ) (lk : FileLock) (lock : PosixLock) (rest : List PosixLock)
    → lock.start < lk.end
    → any (covers o t b) (keep_after lk lock rest)
      ≡ (covers o t b lock && leb lk.end b || any (covers o t b) rest)
unfolding keep_after
any-keep_after o t b lk lock rest h = ground arith

-- One lock of the owner, cut by the range.
cut_lock :
    (c r : Bool) (s e b : ℕ)
    → (c && ltb b s || (c && leb e b || r)) ≡ (c && not (in_range s e b) || r)
cut_lock true r s e b = ground arith
cut_lock false r s e b = refl

abbrev pub freed : ℕ → FileLock → ℕ → ℕ → Bool
freed owner lk o b = o == owner && in_range lk.start lk.end b

any-unlock_scan :
    (owner : ℕ) (lk : FileLock) (o t b : ℕ) (locks : List PosixLock)
    → any (covers o t b) (unlock_scan owner lk locks)
      ≡ (any (covers o t b) locks && not (freed owner lk o b))
unfolding unlock_scan
any-unlock_scan owner lk o t b [] = refl
any-unlock_scan owner lk o t b (lock ∷ locks) =
    elim (Bool-cases (ranges_overlap lk.start lk.end lock.start lock.end)) [
      | inl e ↦
          let (p, q) = overlap_bounds lk.start lk.end lock.start lock.end e in
          ground (
            arith,
            e,
            any-unlock_scan owner lk o t b locks,
            any-keep_before o t b lk lock (keep_after lk lock (unlock_scan owner lk locks)) p,
            any-keep_after o t b lk lock (unlock_scan owner lk locks) q,
          )
      | inr e ↦ ground (
        arith,
        e,
        any-unlock_scan owner lk o t b locks,
        no_overlap lk.start lk.end lock.start lock.end b e,
      )
    ]

pub locks_at-store_locks :
    (lm : LockManager) (path q : String) (ls : List PosixLock)
    → locks_at (store_locks lm path ls) q ≡ ite (string_discrete path q) ls (locks_at lm q)
unfolding locks_at store_locks
locks_at-store_locks lm path q [] = ground (arith, lookup-remove path q lm.posix_locks)
locks_at-store_locks lm path q (l ∷ ls) =
    ground (arith, lookup-insert path q (l ∷ ls) lm.posix_locks)

-- An unlock leaves the locks of the path as its loop does, also where the path has none.
pub locks_at-unlock_posix :
    (lm : LockManager) (path : String) (owner : ℕ) (lk : FileLock) (q : String)
    → locks_at (unlock_posix lm path owner lk).0 q
      ≡ ite (string_discrete path q) (unlock_scan owner lk (locks_at lm path)) (locks_at lm q)
unfolding unlock_posix locks_at unlock_scan
locks_at-unlock_posix lm path owner lk q =
    ground (arith, locks_at-store_locks lm path q (unlock_scan owner lk (locks_at lm path)))

-- The lock that Setlk adds.
abbrev pub new_lock : ℕ → FileLock → PosixLock
new_lock owner lk = record {
  owner = owner;
  start = lk.start;
  end = lk.end;
  typ = lk.typ;
  pid = lk.pid;
}

-- The locks of each file after a Setlk.
pub locks_at-setlk :
    (lm : LockManager) (path : String) (owner : ℕ) (lk : FileLock) (q : String)
    → locks_at (setlk lm path owner lk).0 q
      ≡ ite
          (string_discrete path q)
          (if lk.typ == f_unlck
            then unlock_scan owner lk (locks_at lm path)
            else if setlk_blocked owner lk (locks_at lm path)
            then locks_at lm path
            else locks_at lm path ++ new_lock owner lk ∷ [])
          (locks_at lm q)
unfolding setlk locks_at
locks_at-setlk lm path owner lk q = ground (
  arith,
  locks_at-unlock_posix lm path owner lk q,
  lookup-insert path q (locks_at lm path ++ new_lock owner lk ∷ []) lm.posix_locks,
)

-- The bytes that a granted lock adds.
abbrev pub granted : ℕ → FileLock → ℕ → ℕ → ℕ → Bool
granted owner lk o t b = o == owner && (t == lk.typ && in_range lk.start lk.end b)

-- Setlk byte by byte, on every branch: an unlock takes exactly the bytes of its range from its
-- owner, of either type; a granted lock adds exactly the bytes of its range with its type, and
-- what the owner held before stays; a refused one changes nothing; other files never change.
pub holds-setlk :
    (lm : LockManager) (path : String) (owner : ℕ) (lk : FileLock) (q : String) (o t b : ℕ)
    → holds (setlk lm path owner lk).0 q o t b
      ≡ ite
          (string_discrete path q)
          (if lk.typ == f_unlck
            then holds lm q o t b && not (freed owner lk o b)
            else if (setlk lm path owner lk).1 == success
            then holds lm q o t b || granted owner lk o t b
            else holds lm q o t b)
          (holds lm q o t b)
unfolding holds setlk
holds-setlk lm path owner lk q o t b = ground (
  arith,
  locks_at-setlk lm path owner lk q,
  any-unlock_scan owner lk o t b (locks_at lm path),
  any-append (covers o t b) (locks_at lm path) (new_lock owner lk ∷ []),
)
