-- ===== src/Pool.antt =====
-- pool.go: buffers in size classes, each class over a sync.Pool.
pub mod Classes
pub mod Calls
pub mod Sharing
mod Examples
use fusefs.Common.{
  ℕ, ◌*◌, List, [], ◌∷◌, Option, none, some, leb, ◌==◌, if◌then◌else◌, ◌+◌, Bool, true,
}

-- A []byte: its array from the slice's start on, as `array` names it, how long that array is, and
-- how much of it the slice shows. The contents play no part in the pool.
pub record Buffer : Type 0 where
  pub array : ℕ
  pub cap : ℕ
  pub len : ℕ

-- A sync.Pool, by its state: Get gives a buffer that was put in, or nothing, and then New runs,
-- which is `make`.
pub record SyncPool (P : Type 0) : Type 0 where
  pub get : P → P × Option Buffer
  pub put : P → Buffer → P

-- `sizes[i]` and `pools[i]`, and the name of the next array that is made.
pub record BufferPool (P : Type 0) : Type 0 where
  pub classes : List (ℕ × P)
  pub next_array : ℕ

unfoldable pub new_buffer_pool : {P : Type 0} → P → BufferPool P
new_buffer_pool empty = record {
  classes =
      (4 * 1024, empty) ∷ (64 * 1024, empty) ∷ (128 * 1024, empty) ∷ (1024 * 1024, empty) ∷ [];
  next_array = 0;
}

-- Go's int: n, or - (n + 1).
pub data ℤ : Type 0 where
  pos : ℕ → ℤ
  negsuc : ℕ → ℤ

-- `size <= pool_size`
unfoldable pub fits : ℤ → ℕ → Bool
fits (pos size) pool_size = leb size pool_size
fits (negsuc n) pool_size = true

abbrev pub make_buffer : ℕ → ℕ → Buffer
make_buffer array size = record { array = array; cap = size; len = size }

-- `buf[:size]`; `none` is the panic of a negative size, or of one beyond the capacity.
unfoldable pub reslice : Buffer → ℤ → Option Buffer
reslice buf (pos size) = if leb size buf.cap then some (record buf { len = size }) else none
reslice buf (negsuc n) = none

-- `make([]byte, size)`, and the next array; `none` is the panic of a size that is negative or
-- beyond the limit of Go.
unfoldable pub make : ℕ → ℕ → ℤ → Option Buffer × ℕ
make limit next (pos size) =
    if leb size limit then (some (make_buffer next size), next + 1) else (none, next)
make limit next (negsuc n) = (none, next)

module _ {P : Type 0} (sync : SyncPool P) where
  -- Get of one class, which makes a buffer of the class's size if the pool has none.
  unfoldable pub get_class : ℕ → P → ℕ → P × Buffer × ℕ
  get_class pool_size p next =
      let (p', found) = sync.get p in
      elim found [ none ↦ (p', make_buffer next pool_size, next + 1) | some buf ↦ (p', buf, next) ]

-- `limit` is the greatest size of which Go makes a []byte, and not below that of a class.
module _ {P : Type 0} (sync : SyncPool P) (limit : ℕ) where
  -- The loop of Get over the classes: their state after it, the buffer, and the next array.
  unfoldable pub get_from : List (ℕ × P) → ℕ → ℤ → List (ℕ × P) × Option Buffer × ℕ
  get_from [] next size = let (found, next') = make limit next size in ([], found, next')
  get_from ((pool_size, p) ∷ classes) next size =
      let (p', buf, next') = get_class sync pool_size p next in
      let (rest, found, next'') = get_from classes next size in
      if fits size pool_size
      then ((pool_size, p') ∷ classes, reslice buf size, next')
      else ((pool_size, p) ∷ rest, found, next'')

  unfoldable pub get : BufferPool P → ℤ → BufferPool P × Option Buffer
  get pool size =
      let (classes, found, next) = get_from pool.classes pool.next_array size in
      (record { classes = classes; next_array = next }, found)

module _ {P : Type 0} (sync : SyncPool P) where
  -- The loop of Put. The buffer that goes into a pool shows its whole capacity.
  unfoldable pub put_into : List (ℕ × P) → Buffer → List (ℕ × P)
  put_into [] buf = []
  put_into ((size, p) ∷ classes) buf =
      let rest = put_into classes buf in
      if buf.cap == size
      then (size, sync.put p (record buf { len = buf.cap })) ∷ classes
      else (size, p) ∷ rest

  unfoldable pub put : BufferPool P → Buffer → BufferPool P
  put pool buf = record pool { classes = put_into pool.classes buf }
