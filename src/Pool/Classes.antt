-- ===== src/Pool/Classes.antt =====
-- The pools hold only whole buffers of their class, so Get panics only for its size.
use fusefs.Common.{
  refl, Option-cases, ℕ, ◌≡◌, List, [], ◌∷◌, Option, some, leb, map, ◌==◌, All, arith, ◌⊎◌, inl,
  inr, Bool-cases, if◌then◌else◌, Option-cases, ◌≤◌, ◌<◌, none,
}
use fusefs.Pool.{
  Buffer, SyncPool, BufferPool, get, put, ℤ, pos, negsuc, make, fits, get_class, get_from, put_into,
  reslice, make_buffer, new_buffer_pool,
}

-- What sync.Pool promises, of what may be in it: Get gives only what may be in the pool and adds
-- nothing, and Put adds nothing but its buffer.
pub record IsSyncPool {P : Type 0} (sync : SyncPool P) (Has : P → Buffer → Type 0) : Type 0 where
  pub given : (p : P) (buf : Buffer) → (sync.get p).1 ≡ some buf → Has p buf
  pub kept : (p : P) (buf : Buffer) → Has (sync.get p).0 buf → Has p buf
  pub added : (p : P) (buf new : Buffer) → Has (sync.put p new) buf → Has p buf ⊎ (buf ≡ new)

-- The least class that the size fits, if there is one, else the size itself.
abbrev pub class_of : List ℕ → ℕ → ℕ
class_of [] size = size
class_of (pool_size ∷ sizes) size = if leb size pool_size then pool_size else class_of sizes size

abbrev pub sizes : {P : Type 0} → List (ℕ × P) → List ℕ
sizes classes = map (λ (size, p). size) classes

module _ {P : Type 0} (sync : SyncPool P) (Has : P → Buffer → Type 0)
    (law : IsSyncPool sync Has) where
  -- Every buffer that may be in the pool of a class has the class's size as its capacity.
  abbrev pub Sized : ℕ × P → Type 0
  Sized (size, p) = (buf : Buffer) → Has p buf → buf.cap ≡ size

  abbrev pub IsValid : BufferPool P → Type 0
  IsValid pool = All Sized pool.classes

  -- The classes are of sizes of which Go makes a []byte.
  abbrev pub Makes : ℕ → List ℕ → Type 0
  Makes limit cs = All (λ c. c ≤ limit) cs

  get_class-Sized :
      (pool_size : ℕ) (p : P) (next : ℕ)
      → Sized (pool_size, p)
      → Sized (pool_size, (get_class sync pool_size p next).0)
        × ((get_class sync pool_size p next).1.cap ≡ pool_size)
  unfolding get_class
  get_class-Sized pool_size p next v = (
    λ buf h. v buf (law.kept p buf (ground arith)),
    elim (Option-cases (sync.get p).1) [
      | inl e ↦ ground arith
      | inr (buf, e) ↦ ground (arith, v buf (law.given p buf e))
    ],
  )

  module _ (limit : ℕ) where
    -- What Get gives for a size: a panic, if it is negative or beyond the limit, else a buffer of
    -- that size with the capacity of the class.
    abbrev pub Gives : List ℕ → ℤ → Option Buffer → Type 0
    Gives cs (pos size) found =
        ((size ≤ limit)
          × ((buf : Buffer) × (found ≡ some buf) × (buf.len ≡ size) × (buf.cap ≡ class_of cs size)))
        ⊎ ((limit < size) × (found ≡ none))
    Gives cs (negsuc n) found = found ≡ none

    get_from-Gives :
        (classes : List (ℕ × P)) (next : ℕ) (size : ℤ)
        → All Sized classes
        → Makes limit (sizes classes)
        → let r = get_from sync limit classes next size in
          All Sized r.0 × Gives (sizes classes) size r.1
    unfolding get_from make fits reslice
    get_from-Gives [] next (pos size) v m = elim (Bool-cases (leb size limit)) [
      | inl small ↦ (
        tt,
        inl (ground (arith, small), (make_buffer next size, ground (arith, small), refl, refl)),
      )
      | inr big ↦ (tt, inr (ground (arith, big), ground (arith, big)))
    ]
    get_from-Gives [] next (negsuc n) v m = (tt, refl)
    get_from-Gives ((pool_size, p) ∷ classes) next (pos size) v m =
        let rest = get_from-Gives classes next (pos size) v.1 m.1 in
        let taken = get_class-Sized pool_size p next v.0 in
        let buf = (get_class sync pool_size p next).1 in
        elim (Bool-cases (leb size pool_size)) [
          | inl in_class ↦ rw in_class (
            (taken.0, v.1),
            inl (
              ground (arith, m.0, in_class),
              (record buf { len = size }, ground (arith, taken.1), refl, taken.1),
            ),
          )
          | inr over ↦ rw over ((v.0, rest.0), rest.1)
        ]
    get_from-Gives ((pool_size, p) ∷ classes) next (negsuc n) v m =
        (((get_class-Sized pool_size p next v.0).0, v.1), refl)

    pub get_lem :
        (pool : BufferPool P) (size : ℤ)
        → IsValid pool
        → Makes limit (sizes pool.classes)
        → IsValid (get sync limit pool size).0
          × Gives (sizes pool.classes) size (get sync limit pool size).1
    unfolding get
    get_lem pool size v m = get_from-Gives pool.classes pool.next_array size v m

    -- The classes stay what they are.
    pub sizes-get_from :
        (classes : List (ℕ × P)) (next : ℕ) (size : ℤ)
        → sizes (get_from sync limit classes next size).0 ≡ sizes classes
    unfolding get_from
    sizes-get_from [] next size = refl
    sizes-get_from ((pool_size, p) ∷ classes) next size =
        ground (arith, sizes-get_from classes next size)

  put_into-Sized :
      (classes : List (ℕ × P)) (buf : Buffer)
      → All Sized classes
      → All Sized (put_into sync classes buf)
  unfolding put_into
  put_into-Sized [] buf v = tt
  put_into-Sized ((size, p) ∷ classes) buf v = elim (Bool-cases (buf.cap == size)) [
    | inl same ↦ rw same (
      λ b h. elim (law.added p b (record buf { len = buf.cap }) h) [
        | inl old ↦ v.0 b old
        | inr e ↦ ground arith
      ],
      v.1,
    )
    | inr other ↦ rw other (v.0, put_into-Sized classes buf v.1)
  ]

  pub put-IsValid :
      (pool : BufferPool P) (buf : Buffer) → IsValid pool → IsValid (put sync pool buf)
  unfolding put
  put-IsValid pool buf v = put_into-Sized pool.classes buf v

  pub new_buffer_pool-IsValid :
      (empty : P) → ((buf : Buffer) → ¬ Has empty buf) → IsValid (new_buffer_pool empty)
  unfolding new_buffer_pool
  new_buffer_pool-IsValid empty none_in =
      (vacuous 4096, (vacuous 65536, (vacuous 131072, (vacuous 1048576, tt))))
    where
      vacuous : (size : ℕ) → Sized (size, empty)
      vacuous size buf h = absurd (none_in buf h)

  pub sizes-put_into :
      (classes : List (ℕ × P)) (buf : Buffer) → sizes (put_into sync classes buf) ≡ sizes classes
  unfolding put_into
  sizes-put_into [] buf = refl
  sizes-put_into ((size, p) ∷ classes) buf = ground (arith, sizes-put_into classes buf)
