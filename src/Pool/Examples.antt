-- ===== src/Pool/Examples.antt =====
-- A pool over stacks of buffers: tests, and the theorems at inputs that meet their hypotheses.
use fusefs.Common.{ℕ, ◌+◌, ◌≤◌, refl, ◌≡◌, ◌⊎◌, inl, inr, List, [], ◌∷◌, Option, none, some, arith}
use fusefs.Pool.{
  Buffer, SyncPool, pos, make, fits, new_buffer_pool, get, get_from, get_class, put, put_into,
  reslice,
}
use fusefs.Pool.Classes.{IsSyncPool, Gives}
use fusefs.Pool.Sharing.{Use, Users, Counts, sharers, lies_found, pick, use_step, use_run, unshared}
use fusefs.Pool.Calls.{Call, step, run, get-run}

abbrev Stack : Type 0
Stack = List Buffer

abbrev pop : Stack → Stack × Option Buffer
pop [] = ([], none)
pop (buf ∷ bufs) = (bufs, some buf)

abbrev stack : SyncPool Stack
stack = record { get = pop; put = λ bufs buf. buf ∷ bufs }

abbrev Has : Stack → Buffer → Type 0
Has [] buf = ⊥
Has (x ∷ xs) buf = (buf ≡ x) ⊎ Has xs buf

stack-given : (p : Stack) (buf : Buffer) → (pop p).1 ≡ some buf → Has p buf
stack-given [] buf e = absurd (cc e)
stack-given (x ∷ xs) buf e = inl (ground arith)

stack-kept : (p : Stack) (buf : Buffer) → Has (pop p).0 buf → Has p buf
stack-kept [] buf h = h
stack-kept (x ∷ xs) buf h = inr h

stack-added : (p : Stack) (buf new : Buffer) → Has (new ∷ p) buf → Has p buf ⊎ (buf ≡ new)
stack-added p buf new (inl e) = inr e
stack-added p buf new (inr h) = inl h

stack-IsSyncPool : IsSyncPool stack Has
stack-IsSyncPool = record { given = stack-given; kept = stack-kept; added = stack-added }

program : Unit {0}
unfolding new_buffer_pool make fits get get_from get_class put put_into reslice step run
program = tt

-- Array 0 is made for the first class, put back, and given again.
abbrev first : Buffer
first = record { array = 0; cap = 4096; len = 100 }

abbrev calls : List Call
calls = Call.get_buffer (pos 100) ∷ Call.put_buffer first ∷ []

reuse_test :
    (get stack 1048576 (run stack 1048576 (new_buffer_pool []) calls) (pos 4096)).1
    ≡ some (record { array = 0; cap = 4096; len = 4096 })
unfolding program
reuse_test = refl

get-run_example :
    Gives stack Has stack-IsSyncPool 1048576
      (4096 ∷ 65536 ∷ 131072 ∷ 1048576 ∷ [])
      (pos 5000)
      (get stack 1048576 (run stack 1048576 (new_buffer_pool []) calls) (pos 5000)).1
get-run_example =
    get-run stack 1048576 Has stack-IsSyncPool (omega arith) [] calls (pos 5000) (λ buf h. h)

abbrev times : Stack → ℕ → ℕ
times p a = sharers a p

stack-removed : (p : Stack) (a : ℕ) → times (pop p).0 a + lies_found a (pop p).1 ≤ times p a
stack-removed [] a = omega arith
stack-removed (buf ∷ bufs) a = omega arith

stack-Counts : Counts stack times
stack-Counts = record { removed = stack-removed; added = λ p buf a. omega arith }

-- Two buffers are out, the first is put back, and a third user gets it.
abbrev uses : List Use
uses =
    Use.take_buffer (pos 100)
    ∷ Use.take_buffer (pos 200)
    ∷ Use.give_back 1
    ∷ Use.take_buffer (pos 4096)
    ∷ []

abbrev users : Users Stack
users = use_run stack 1048576 (record { pool = new_buffer_pool []; out = [] }) uses

uses_test : (sharers 0 users.out ≡ 1) × (sharers 1 users.out ≡ 1) × (sharers 2 users.out ≡ 0)
unfolding program use_run use_step pick
uses_test = (refl, refl, refl)

unshared_example : sharers 0 users.out ≤ 1
unshared_example = unshared stack 1048576 times stack-Counts [] uses 0 (λ b. refl)
