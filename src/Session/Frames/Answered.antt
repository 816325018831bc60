-- ===== src/Session/Frames/Answered.antt =====
-- What follows a call of the mounted filesystem may use that its result is an answer.
use fusefs.Common.{ℕ, ◌≡◌, ◌+◌, refl, arith}
use fusefs.Absfs.{Outcome, ok, fail}
use fusefs.Fuse.{FuseFs, FileSystem, Handler, Reply, done, errno, Call, ◌>>=◌, give_up, attempt}
use fusefs.Session.Frames.{IsFrame}
use fusefs.Session.Frames.Rules.{Spends, bound}

module _ {World File : Type 0} {fs : FileSystem World File} {P : ℕ → FuseFs World File → Type 0}
    (frame : IsFrame fs P) where
  -- The answer of a call of the filesystem, and what follows, which may use that it is one.
  pub answer-P :
      {A B : Type 0} (call : Call World A) (w : World) (f : A → Handler World File B)
      (c : Reply B → ℕ) (b : ℕ) (s : FuseFs World File) (r : Outcome A)
      → (call w).1 ≡ r
      → ((a : A) (w : World) → (call w).1 ≡ ok a → Spends P c (f a))
      → let m = elim r as (λ _. Reply A × FuseFs World File) [
        | ok a ↦ (done a, s)
        | fail err ↦ give_up err s
      ] in
        P (c (bound frame m.0 f m.1).0 + b) s → P b (bound frame m.0 f m.1).1
  unfolding give_up
  answer-P call w f c b s (ok a) e k p = (k a w e).at b s p
  answer-P call w f c b s (fail err) e k p =
      frame.framed b s s.world _ (frame.weaker b (c (errno _) + b) s (omega arith) p)

  pub attempt-Spends :
      {A B : Type 0} {c : Reply B → ℕ} (call : Call World A) {f : A → Handler World File B}
      → ((a : A) (w : World) → (call w).1 ≡ ok a → Spends P c (f a))
      → Spends P c (attempt call >>= f)
  unfolding attempt
  attempt-Spends {c} call {f} k = record {
    at = λ b s p.
        answer-P call s.world f c b _ (call s.world).1 refl k
          (frame.framed _ s (call s.world).0 s.stats p);
  }
