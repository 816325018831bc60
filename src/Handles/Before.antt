-- ===== src/Handles/Before.antt =====
-- What a handle gives after an operation on the tracker it gave before, unless Add gave it.
use fusefs.Common.{
  ℕ, ◌+◌, ◌-◌, ◌%◌, ◌^◌, ◌<◌, ◌≤◌, ◌≡◌, refl, String, List, [], ◌∷◌, Option, some, inl, inr, arith,
  Option-cases, subst,
}
use fusefs.Common.Keys.{nat_key}
use fusefs.Common.Assoc.{lookup, remove, lookup-insert, lookup-remove}
use fusefs.Errors.{GoError}
use fusefs.Handles.{HandleTracker, HandleEntry, add, get, release, release_entry, close_all}

-- What a handle gives after Release or CloseAll it gave before.
module _ {File World : Type 0} (close : File → World → World × Option GoError) where
  pub get-release_before :
      (ht : HandleTracker File) (w : World) (fh q : ℕ) (file : File)
      → get (release close ht w fh).0 q ≡ some file
      → get ht q ≡ some file
  unfolding get release release_entry
  get-release_before ht w fh q file e = elim (Option-cases (lookup fh ht.handles)) [
    | inl n ↦ ground arith
    | inr (entry, f) ↦ ground (
      arith,
      lookup-remove fh q ht.handles,
      lookup-insert fh q (record entry { ref_count = entry.ref_count - 1 }) ht.handles,
    )
  ]

  pub get-close_all_before :
      (order : List ℕ) (ht : HandleTracker File) (w : World) (q : ℕ) (file : File)
      → get (close_all close order ht w).0 q ≡ some file
      → get ht q ≡ some file
  unfolding get close_all
  get-close_all_before [] ht w q file e = e
  get-close_all_before (fh ∷ order) ht w q file e = elim (Option-cases (lookup fh ht.handles)) [
    | inl n ↦
        let skip : close_all close (fh ∷ order) ht w ≡ close_all close order ht w =
          rw (n, close_all) refl in
        get-close_all_before order ht w q file (subst (λ r. get r.0 q ≡ some file) skip e)
    | inr (entry, f) ↦
        let left : HandleTracker File = record ht { handles = remove fh ht.handles } in
        let w' = (close entry.file w).0 in
        let once : close_all close (fh ∷ order) ht w ≡ close_all close order left w' =
          rw (f, close_all) refl in
        let before =
          get-close_all_before order left w' q file (subst (λ r. get r.0 q ≡ some file) once e) in
        ground (arith, before, lookup-remove fh q ht.handles)
  ]

-- A handle that Add did not give gives what it gave.
pub get-add_before :
    {File : Type 0} (ht : HandleTracker File) (file : File) (flags : ℕ) (path : String) (q : ℕ)
    (g : File)
    → q ≤ ht.next_handle
    → ht.next_handle + 1 < 2 ^ 64
    → get (add ht file flags path).0 q ≡ some g
    → get ht q ≡ some g
unfolding get add
get-add_before {File} ht file flags path q g l room e =
    let entry : HandleEntry File = record {
      file = file;
      ref_count = 1;
      flags = flags;
      path = path;
    } in
    ground (arith, lookup-insert ((ht.next_handle + 1) % 2 ^ 64) q entry ht.handles)
