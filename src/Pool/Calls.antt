-- ===== src/Pool/Calls.antt =====
-- The pool after any sequence of GetBuffer and PutBuffer calls.
use fusefs.Common.{ℕ, ◌≡◌, List, [], ◌∷◌, refl, ◌∙◌, ◌≤◌, subst, sym, arith}
use fusefs.Pool.{Buffer, SyncPool, BufferPool, get, put, ℤ, new_buffer_pool}
use fusefs.Pool.Classes.{
  IsSyncPool, IsValid, Gives, Makes, sizes, get_lem, put-IsValid, new_buffer_pool-IsValid,
  sizes-get_from, sizes-put_into,
}

pub data Call : Type 0 where
  get_buffer : ℤ → Call
  put_buffer : Buffer → Call

module _ {P : Type 0} (sync : SyncPool P) (limit : ℕ) where
  -- A Get that panics leaves the pool as it made it before.
  unfoldable pub step : BufferPool P → Call → BufferPool P
  step pool (get_buffer size) = (get sync limit pool size).0
  step pool (put_buffer buf) = put sync pool buf

  unfoldable pub run : BufferPool P → List Call → BufferPool P
  run pool [] = pool
  run pool (c ∷ cs) = run (step pool c) cs

  module _ (Has : P → Buffer → Type 0) (law : IsSyncPool sync Has) where
    -- The pools are valid, and the classes those of newBufferPool.
    abbrev Runs : BufferPool P → Type 0
    Runs pool =
        IsValid sync Has law pool × (sizes pool.classes ≡ 4096 ∷ 65536 ∷ 131072 ∷ 1048576 ∷ [])

    module _ (enough : 1048576 ≤ limit) where
      made : (pool : BufferPool P) → Runs pool → Makes sync Has law limit (sizes pool.classes)
      made pool v =
          subst (Makes sync Has law limit) (sym v.1)
            (omega (arith, enough), (omega (arith, enough), (omega (arith, enough), (enough, tt))))

      step-Runs : (pool : BufferPool P) (c : Call) → Runs pool → Runs (step pool c)
      unfolding step get put
      step-Runs pool (get_buffer size) v = (
        unfold get in (get_lem sync Has law limit pool size v.0 (made pool v)).0,
        sizes-get_from sync Has law limit pool.classes pool.next_array size ∙ v.1,
      )
      step-Runs pool (put_buffer buf) v = (
        put-IsValid sync Has law pool buf v.0,
        sizes-put_into sync Has law pool.classes buf ∙ v.1,
      )

      run-Runs : (pool : BufferPool P) (cs : List Call) → Runs pool → Runs (run pool cs)
      unfolding run
      run-Runs pool [] v = v
      run-Runs pool (c ∷ cs) v = run-Runs (step pool c) cs (step-Runs pool c v)

      -- After any sequence of GetBuffer and PutBuffer calls, of any sizes and buffers, GetBuffer
      -- panics exactly for a size that is negative or beyond the limit of make; for any other it
      -- gives a buffer of the size asked for, with the capacity of the least class that fits it,
      -- or its own if none does. The limit is not below the greatest class. A sync.Pool gives only
      -- what was put in, and starts with nothing.
      pub get-run :
          (empty : P) (cs : List Call) (size : ℤ)
          → ((buf : Buffer) → ¬ Has empty buf)
          → Gives sync Has law limit
              (4096 ∷ 65536 ∷ 131072 ∷ 1048576 ∷ [])
              size
              (get sync limit (run (new_buffer_pool empty) cs) size).1
      unfolding new_buffer_pool
      get-run empty cs size e =
          let start = new_buffer_pool empty in
          let v = run-Runs start cs (new_buffer_pool-IsValid sync Has law empty e, refl) in
          let g = (get_lem sync Has law limit (run start cs) size v.0 (made (run start cs) v)).1 in
          subst (λ cs'. Gives sync Has law limit cs' size (get sync limit (run start cs) size).1)
            v.1 g
