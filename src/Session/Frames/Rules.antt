-- ===== src/Session/Frames/Rules.antt =====
-- Rules for the parts that handlers are made of: what keeps a framed predicate, and what spends how
-- much of its budget.
use fusefs.Common.{Bool, true, false, Option, none, some, ◌+◌, ◌≤◌, arith, ℕ, if◌then◌else◌}
use fusefs.Absfs.{Outcome, ok, fail}
use fusefs.Errors.{GoError}
use fusefs.Fuse.{
  FuseFs, FileSystem, Handler, Reply, done, errno, Call, Status, pure, return_errno, ◌>>=◌, ◌>>◌,
  count_operation, check_mounted, give_up, attempt, attempt_status, ignore_status, read_state,
  require, done,
}
use fusefs.Session.Frames.{IsFrame}

-- The handler keeps the predicate, at every budget.
pub record Keeps {World File A : Type 0} (P : ℕ → FuseFs World File → Type 0)
    (h : Handler World File A) : Type 0 where
  pub at : (b : ℕ) (s : FuseFs World File) → P b s → P b (h s).1

-- The handler takes from the budget at most the number that its reply decides.
pub record Spends {World File A : Type 0} (P : ℕ → FuseFs World File → Type 0) (c : Reply A → ℕ)
    (h : Handler World File A) : Type 0 where
  pub at : (b : ℕ) (s : FuseFs World File) → P (c (h s).0 + b) s → P b (h s).1

module _ {World File : Type 0} {fs : FileSystem World File} {P : ℕ → FuseFs World File → Type 0}
    (frame : IsFrame fs P) where
  abbrev S : Type 0
  S = FuseFs World File

  module _ {A B : Type 0} where
    abbrev pub bound : Reply A → (A → Handler World File B) → S → Reply B × S
    bound r f s = elim r [ done a ↦ f a s | errno n ↦ (errno n, s) ]

    bound-Keeps :
        (r : Reply A) (f : A → Handler World File B) (b : ℕ) (s : S)
        → ((a : A) → Keeps P (f a))
        → P b s
        → P b (bound r f s).1
    bound-Keeps (done a) f b s k p = (k a).at b s p
    bound-Keeps (errno n) f b s k p = p

    bound-Spends :
        (r : Reply A) (f : A → Handler World File B) (c : Reply B → ℕ) (b : ℕ) (s : S)
        → ((a : A) → Spends P c (f a))
        → P (c (bound r f s).0 + b) s
        → P b (bound r f s).1
    bound-Spends (done a) f c b s k p = (k a).at b s p
    bound-Spends (errno n) f c b s k p = frame.weaker b (c (errno n) + b) s (omega arith) p

    -- The rules for a bind: both parts keep, the first spends nothing, or the second nothing.
    pub bind-Keeps :
        {m : Handler World File A} {f : A → Handler World File B}
        → Keeps P m
        → ((a : A) → Keeps P (f a))
        → Keeps P (m >>= f)
    bind-Keeps {m} {f} km kf = record {
      at = λ b s p. bound-Keeps (m s).0 f b (m s).1 kf (km.at b s p);
    }

    pub Keeps-Spends :
        {c : Reply B → ℕ} {m : Handler World File A} {f : A → Handler World File B}
        → Keeps P m
        → ((a : A) → Spends P c (f a))
        → Spends P c (m >>= f)
    Keeps-Spends {c} {m} {f} km kf = record {
      at = λ b s p. bound-Spends (m s).0 f c b (m s).1 kf (km.at (c ((m >>= f) s).0 + b) s p);
    }

    pub Spends-Keeps :
        {n : ℕ} {m : Handler World File A} {f : A → Handler World File B}
        → Spends P (λ _. n) m
        → ((a : A) → Keeps P (f a))
        → Spends P (λ _. n) (m >>= f)
    Spends-Keeps {m} {f} km kf = record {
      at = λ b s p. bound-Keeps (m s).0 f b (m s).1 kf (km.at b s p);
    }

    pub Spends-Spends :
        {n k : ℕ} {m : Handler World File A} {f : A → Handler World File B}
        → Spends P (λ _. n) m
        → ((a : A) → Spends P (λ _. k) (f a))
        → Spends P (λ _. n + k) (m >>= f)
    Spends-Spends {n} {k} {m} {f} km kf = record {
      at = λ b s p.
          bound-Spends (m s).0 f (λ _. k) b (m s).1 kf
            (km.at (k + b) s (frame.weaker (n + (k + b)) (n + k + b) s (omega arith) p));
    }

  pub option-Keeps :
      {O B : Type 0} (o : Option O) {h : Handler World File B} {f : O → Handler World File B}
      → Keeps P h
      → ((a : O) → Keeps P (f a))
      → Keeps P (elim o [ none ↦ h | some a ↦ f a ])
  option-Keeps none kh kf = kh
  option-Keeps (some a) kh kf = kf a

  pub cond-Keeps :
      {B : Type 0} (t : Bool) {h k : Handler World File B}
      → Keeps P h
      → Keeps P k
      → Keeps P (if t then h else k)
  cond-Keeps true kh kk = kh
  cond-Keeps false kh kk = kk

  pub more :
      {B : Type 0} {c d : Reply B → ℕ} {h : Handler World File B}
      → ((r : Reply B) → c r ≤ d r)
      → Spends P c h
      → Spends P d h
  more {c} {d} {h} l k = record {
    at = λ b s p.
        k.at b s (frame.weaker (c (h s).0 + b) (d (h s).0 + b) s (omega (arith, l (h s).0)) p);
  }

  pub Keeps-free :
      {B : Type 0} {c : Reply B → ℕ} {h : Handler World File B} → Keeps P h → Spends P c h
  Keeps-free {c} {h} k = record {
    at = λ b s p. k.at b s (frame.weaker b (c (h s).0 + b) s (omega arith) p);
  }

  -- What the cache had is answered, and else what spends.
  pub option-Spends :
      {O B : Type 0} {c : Reply B → ℕ} (o : Option O) {h : Handler World File B}
      {f : O → Handler World File B}
      → Spends P c h
      → ((a : O) → Keeps P (f a))
      → Spends P c (elim o [ some a ↦ f a | none ↦ h ])
  option-Spends none kh kf = kh
  option-Spends (some a) kh kf = Keeps-free (kf a)

  -- The steps that leave the stores alone.
  pub pure-Keeps : {A : Type 0} (a : A) → Keeps P (pure a)
  pure-Keeps a = record { at = λ b s p. p }

  pub return-Keeps : {A : Type 0} (n : ℕ) → Keeps P (return_errno {A = A} n)
  return-Keeps n = record { at = λ b s p. p }

  pub count-Keeps : Keeps P count_operation
  unfolding count_operation
  count-Keeps = record { at = λ b s p. frame.framed b s s.world _ p }

  pub check-Keeps : Keeps P check_mounted
  unfolding check_mounted
  check-Keeps = record { at = λ b s p. p }

  pub read_state-Keeps : Keeps P read_state
  unfolding read_state
  read_state-Keeps = record { at = λ b s p. p }

  pub require-Keeps : {A : Type 0} (o : Option A) (n : ℕ) → Keeps P (require o n)
  unfolding require
  require-Keeps none n = record { at = λ b s p. p }
  require-Keeps (some a) n = record { at = λ b s p. p }

  -- The end of a call of the mounted filesystem, by its result.
  answered-P :
      {A : Type 0} (r : Outcome A) (b : ℕ) (s : S)
      → P b s
      → P b (elim r as (λ _. Reply A × S) [ ok a ↦ (done a, s) | fail err ↦ give_up err s ]).1
  unfolding give_up
  answered-P (ok a) b s p = p
  answered-P (fail err) b s p = frame.framed b s s.world _ p

  pub attempt-Keeps : {A : Type 0} (call : Call World A) → Keeps P (attempt call)
  unfolding attempt
  attempt-Keeps call = record {
    at = λ b s p. answered-P (call s.world).1 b _ (frame.framed b s (call s.world).0 s.stats p);
  }

  -- The same for calls without a result.
  status-P :
      {A : Type 0} (a : A) (r : Option GoError) (b : ℕ) (s t : S)
      → P b s
      → P b t
      → P b (elim r as (λ _. Reply A × S) [ none ↦ (done a, t) | some err ↦ give_up err s ]).1
  unfolding give_up
  status-P a none b s t p q = q
  status-P a (some err) b s t p q = frame.framed b s s.world _ p

  pub status-Keeps : (call : Status World) → Keeps P (attempt_status call)
  unfolding attempt_status
  status-Keeps call = record {
    at = λ b s p.
        let q = frame.framed b s (call s.world).0 s.stats p in
        status-P tt (call s.world).1 b _ _ q q;
  }

  pub ignore-Keeps : (call : Status World) → Keeps P (ignore_status call)
  unfolding ignore_status
  ignore-Keeps call = record { at = λ b s p. frame.framed b s (call s.world).0 s.stats p }

  -- The beginning of every handler of a node.
  pub opening-Keeps :
      {A : Type 0} {k : Handler World File A}
      → Keeps P k
      → Keeps P (count_operation >> (check_mounted >> k))
  opening-Keeps kk = bind-Keeps count-Keeps (λ _. bind-Keeps check-Keeps (λ _. kk))

  pub opening-Spends :
      {A : Type 0} {c : Reply A → ℕ} {k : Handler World File A}
      → Spends P c k
      → Spends P c (count_operation >> (check_mounted >> k))
  opening-Spends kk = Keeps-Spends count-Keeps (λ _. Keeps-Spends check-Keeps (λ _. kk))
