-- ===== src/Pool/Sharing.antt =====
-- No array is in two hands: what the users of a pool have out at one time, where each puts back
-- only what it has, and once.
use fusefs.Common.{
  ℕ, zero, suc, ◌+◌, ◌≤◌, ◌≡◌, List, [], ◌∷◌, Option, none, some, inl, inr, ltb, ◌==◌,
  if◌then◌else◌, arith, Option-cases,
}
use fusefs.Pool.{
  Buffer, SyncPool, BufferPool, get, put, ℤ, pos, negsuc, make, fits, get_class, get_from, put_into,
  reslice, new_buffer_pool,
}

-- 1 if the buffer lies in the array, else 0; and how many of a list do.
abbrev pub lies : ℕ → Buffer → ℕ
lies a buf = if buf.array == a then 1 else 0

abbrev pub lies_found : ℕ → Option Buffer → ℕ
lies_found a none = 0
lies_found a (some buf) = lies a buf

abbrev pub sharers : ℕ → List Buffer → ℕ
sharers a [] = 0
sharers a (buf ∷ bufs) = lies a buf + sharers a bufs

-- What sync.Pool promises, of how many of its buffers lie in an array: Get removes the buffer that
-- it gives, Put adds its buffer, and either may drop others.
pub record Counts {P : Type 0} (sync : SyncPool P) (times : P → ℕ → ℕ) : Type 0 where
  pub removed : (p : P) (a : ℕ) → times (sync.get p).0 a + lies_found a (sync.get p).1 ≤ times p a
  pub added : (p : P) (buf : Buffer) (a : ℕ) → times (sync.put p buf) a ≤ times p a + lies a buf

-- A user gets a buffer, or puts back the one that it got so many buffers ago.
pub data Use : Type 0 where
  take_buffer : ℤ → Use
  give_back : ℕ → Use

pub record Users (P : Type 0) : Type 0 where
  pub pool : BufferPool P
  pub out : List Buffer

-- The buffer at a place, and the others.
unfoldable pub pick : ℕ → List Buffer → Option Buffer × List Buffer
pick n [] = (none, [])
pick zero (buf ∷ bufs) = (some buf, bufs)
pick (suc n) (buf ∷ bufs) = let (found, rest) = pick n bufs in (found, buf ∷ rest)

module _ {P : Type 0} (sync : SyncPool P) (limit : ℕ) where
  unfoldable pub use_step : Users P → Use → Users P
  use_step u (take_buffer size) =
      let (pool, found) = get sync limit u.pool size in
      elim found [
        | none ↦ record u { pool = pool }
        | some buf ↦ record { pool = pool; out = buf ∷ u.out }
      ]
  use_step u (give_back n) =
      let (found, rest) = pick n u.out in
      elim found [ none ↦ u | some buf ↦ record { pool = put sync u.pool buf; out = rest } ]

  unfoldable pub use_run : Users P → List Use → Users P
  use_run u [] = u
  use_run u (c ∷ cs) = use_run (use_step u c) cs

  module _ (times : P → ℕ → ℕ) (law : Counts sync times) where
    -- How many buffers in the pools lie in an array.
    abbrev total : List (ℕ × P) → ℕ → ℕ
    total [] a = 0
    total ((size, p) ∷ classes) a = times p a + total classes a

    abbrev made : ℕ → ℕ → ℕ
    made next a = if ltb a next then 1 else 0

    get_class_lem :
        (pool_size : ℕ) (p : P) (next a : ℕ)
        → let r = get_class sync pool_size p next in
          times r.0 a + lies a r.1 + made next a ≤ times p a + made r.2 a
    unfolding get_class
    get_class_lem pool_size p next a = elim (Option-cases (sync.get p).1) [
      | inl e ↦ ground (arith, law.removed p a)
      | inr (buf, e) ↦ ground (arith, law.removed p a)
    ]

    get_from_lem :
        (classes : List (ℕ × P)) (next : ℕ) (size : ℤ) (a : ℕ)
        → let r = get_from sync limit classes next size in
          total r.0 a + lies_found a r.1 + made next a ≤ total classes a + made r.2 a
    unfolding get_from reslice make fits
    get_from_lem [] next (pos size) a = ground arith
    get_from_lem [] next (negsuc n) a = omega arith
    get_from_lem ((pool_size, p) ∷ classes) next (pos size) a =
        ground (arith, get_class_lem pool_size p next a, get_from_lem classes next (pos size) a)
    get_from_lem ((pool_size, p) ∷ classes) next (negsuc n) a =
        omega (arith, get_class_lem pool_size p next a)

    put_into_lem :
        (classes : List (ℕ × P)) (buf : Buffer) (a : ℕ)
        → total (put_into sync classes buf) a ≤ total classes a + lies a buf
    unfolding put_into
    put_into_lem [] buf a = omega arith
    put_into_lem ((size, p) ∷ classes) buf a =
        ground (arith, law.added p (record buf { len = buf.cap }) a, put_into_lem classes buf a)

    pick_lem :
        (n : ℕ) (bufs : List Buffer) (a : ℕ)
        → sharers a (pick n bufs).1 + lies_found a (pick n bufs).0 ≡ sharers a bufs
    unfolding pick
    pick_lem n [] a = omega arith
    pick_lem zero (buf ∷ bufs) a = omega arith
    pick_lem (suc n) (buf ∷ bufs) a = omega (arith, pick_lem n bufs a)

    -- An array that was made lies in one buffer at most, be it in a pool or out, and no other
    -- array in any.
    Single : Users P → Type 0
    Single u = (a : ℕ) → total u.pool.classes a + sharers a u.out ≤ made u.pool.next_array a

    take-Single : (u : Users P) (size : ℤ) → Single u → Single (use_step u (take_buffer size))
    unfolding use_step get Single
    take-Single u size v a =
        let l = get_from_lem u.pool.classes u.pool.next_array size a in
        elim (Option-cases (get_from sync limit u.pool.classes u.pool.next_array size).1) [
          | inl e ↦ ground (arith, l, v a)
          | inr (buf, e) ↦ ground (arith, l, v a)
        ]

    give-Single : (u : Users P) (n : ℕ) → Single u → Single (use_step u (give_back n))
    unfolding use_step put Single
    give-Single u n v a = elim (Option-cases (pick n u.out).0) [
      | inl e ↦ ground (arith, v a)
      | inr (buf, e) ↦ ground (arith, put_into_lem u.pool.classes buf a, pick_lem n u.out a, v a)
    ]

    run-Single : (u : Users P) (cs : List Use) → Single u → Single (use_run u cs)
    unfolding use_run
    run-Single u [] v = v
    run-Single u (take_buffer size ∷ cs) v =
        run-Single (use_step u (take_buffer size)) cs (take-Single u size v)
    run-Single u (give_back n ∷ cs) v = run-Single (use_step u (give_back n)) cs (give-Single u n v)

    new-Single :
        (empty : P)
        → ((a : ℕ) → times empty a ≡ 0)
        → Single (record { pool = new_buffer_pool empty; out = [] })
    unfolding new_buffer_pool Single
    new-Single empty none_in a = omega (arith, none_in a)

    -- After any sequence of GetBuffer and PutBuffer calls in which each buffer that is put back is
    -- one that is out, and then no longer is, no two of the buffers that are out lie in one array.
    -- A sync.Pool removes the buffer that its Get gives, and starts with nothing.
    pub unshared :
        (empty : P) (cs : List Use) (a : ℕ)
        → ((b : ℕ) → times empty b ≡ 0)
        → sharers a (use_run (record { pool = new_buffer_pool empty; out = [] }) cs).out ≤ 1
    unfolding Single
    unshared empty cs a none_in =
        let start : Users P = record { pool = new_buffer_pool empty; out = [] } in
        let v = run-Single start cs (new-Single empty none_in) a in ground (arith, v)
