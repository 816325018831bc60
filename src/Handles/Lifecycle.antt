-- ===== src/Handles/Lifecycle.antt =====
-- The life of a handle: it is fresh when allocated, found until released, and unknown after.
use fusefs.Common.{
  ℕ, ◌+◌, ◌^◌, ◌<◌, ◌≡◌, refl, String, List, [], ◌∷◌, Option, none, some, inl, inr, arith, All, ite,
  ℕ_discrete, ◌%◌, Option-cases, is_none, false, any, ◌==◌, true,
}
use fusefs.Common.Keys.{nat_key}
use fusefs.Common.Assoc.{
  Assoc, lookup, remove, IsUnique, insert-IsUnique, lookup-insert, insert-All, length-insert,
  lookup-All, lookup-remove, length-remove, remove-IsUnique, remove-All,
}
use fusefs.Errno.{ebadf}
use fusefs.Errors.{GoError, map_error}
use fusefs.Handles.{
  HandleEntry, HandleTracker, add, get, count, release, release_entry, close_all,
  new_handle_tracker,
}

-- Handles lie in 1 ..= next_handle, none stands twice, and each is open once.
pub record IsValid {File : Type 0} (ht : HandleTracker File) : Type 0 where
  pub unique : IsUnique ht.handles
  pub bounded : (fh : ℕ) → ht.next_handle < fh → lookup fh ht.handles ≡ none
  pub positive : lookup 0 ht.handles ≡ none
  pub open_once : All (λ e. e.1.ref_count ≡ 1) ht.handles

pub new_handle_tracker-IsValid : (File : Type 0) → IsValid (new_handle_tracker {File = File})
unfolding new_handle_tracker lookup
new_handle_tracker-IsValid File = record {
  unique = tt;
  bounded = λ fh h. refl;
  positive = refl;
  open_once = tt;
}

module _ {File : Type 0} (ht : HandleTracker File) (file : File) (flags : ℕ) (path : String) where
  -- Add keeps the tracker valid, as long as its counter has not run through: no handle stands
  -- twice, none is 0 or beyond the counter, and each is open once.
  pub add-IsValid : ht.next_handle + 1 < 2 ^ 64 → IsValid ht → IsValid (add ht file flags path).0
  unfolding add
  add-IsValid small v = record {
    unique = insert-IsUnique _ _ ht.handles v.unique;
    bounded = λ fh h. ground (arith, lookup-insert next fh entry ht.handles, v.bounded fh);
    positive = ground (arith, lookup-insert next 0 entry ht.handles);
    open_once = insert-All _ next entry ht.handles (λ _. refl) v.open_once;
  }
    where
      next : ℕ
      next = (ht.next_handle + 1) % 2 ^ 64

      entry : HandleEntry File
      entry = record { file = file; ref_count = 1; flags = flags; path = path }

  -- Add answers with a handle that was unknown and then gives its file, every other handle gives
  -- what it gave, and one more is open, where the tracker is valid and its counter has not run
  -- through.
  pub get-add :
      (q : ℕ)
      → ht.next_handle + 1 < 2 ^ 64
      → IsValid ht
      → let fh = (add ht file flags path).1 in
        (get ht fh ≡ none)
        × (get (add ht file flags path).0 q ≡ ite (ℕ_discrete fh q) (some file) (get ht q))
        × (count (add ht file flags path).0 ≡ count ht + 1)
  unfolding add get count
  get-add q small v =
      let next : ℕ = (ht.next_handle + 1) % 2 ^ 64 in
      let entry : HandleEntry File = record {
        file = file;
        ref_count = 1;
        flags = flags;
        path = path;
      } in
      let free : lookup next ht.handles ≡ none = v.bounded next (omega arith) in
      (
        rw (free, get),
        ground (arith, lookup-insert next q entry ht.handles),
        ground (arith, length-insert next entry ht.handles),
      )

forgotten-IsValid :
    {File : Type 0} (ht : HandleTracker File) (fh : ℕ)
    → IsValid ht
    → IsValid (record ht { handles = remove fh ht.handles })
forgotten-IsValid ht fh v = record {
  unique = remove-IsUnique fh ht.handles v.unique;
  bounded = λ q h. ground (arith, lookup-remove fh q ht.handles, v.bounded q);
  positive = ground (arith, lookup-remove fh 0 ht.handles, v.positive);
  open_once = remove-All _ fh ht.handles v.open_once;
}

-- Every open handle stands in the order of the visits.
abbrev pub Covers : {File : Type 0} → List ℕ → HandleTracker File → Type 0
Covers order ht =
    (fh : ℕ) → is_none (lookup fh ht.handles) ≡ false → any (λ x. x == fh) order ≡ true

module _ {File World : Type 0} (close : File → World → World × Option GoError) where
  -- Release of an open handle of a valid tracker closes its file once, answers with the error of
  -- that close, and forgets the handle and no other.
  pub get-release :
      (ht : HandleTracker File) (w : World) (fh q : ℕ) {file : File}
      → IsValid ht
      → get ht fh ≡ some file
      → let r = release close ht w fh in
        (get r.0 q ≡ ite (ℕ_discrete fh q) none (get ht q))
        × (r.1 ≡ (close file w).0)
        × (r.2 ≡ map_error (close file w).1)
        × (count r.0 + 1 ≡ count ht)
  unfolding release release_entry get count
  get-release ht w fh q {file} v g = elim (Option-cases (lookup fh ht.handles)) [
    | inl e ↦ absurd (ground arith)
    | inr (entry, e) ↦
        let once : entry.ref_count ≡ 1 = lookup-All _ fh ht.handles v.open_once e in
        let closed : release close ht w fh ≡ (
          record ht { handles = remove fh ht.handles },
          (close entry.file w).0,
          map_error (close entry.file w).1,
        ) =
          ground arith in
        let same : entry.file ≡ file = ground arith in
        rw closed (
          ground (arith, lookup-remove fh q ht.handles),
          ground arith,
          ground arith,
          ground (arith, length-remove fh ht.handles {v = entry} v.unique),
        )
  ]

  -- Release keeps the tracker valid, whether the handle is open or not.
  pub release-IsValid :
      (ht : HandleTracker File) (w : World) (fh : ℕ)
      → IsValid ht
      → IsValid (release close ht w fh).0
  unfolding release release_entry
  release-IsValid ht w fh v = elim (Option-cases (lookup fh ht.handles)) [
    | inl e ↦ rw (e, release) v
    | inr (entry, e) ↦
        let once : entry.ref_count ≡ 1 = lookup-All _ fh ht.handles v.open_once e in
        let closed : (release close ht w fh).0 ≡ record ht { handles = remove fh ht.handles } =
          ground arith in
        rw closed (forgotten-IsValid ht fh v)
  ]

  pub release_closed :
      (ht : HandleTracker File) (w : World) (fh : ℕ)
      → get ht fh ≡ none
      → release close ht w fh ≡ (ht, w, ebadf)
  unfolding release get
  release_closed ht w fh g = ground arith

  -- Releasing an open handle of a valid tracker a second time answers EBADF, closes nothing and
  -- changes nothing.
  pub release_twice :
      (ht : HandleTracker File) (w : World) (fh : ℕ) {file : File}
      → IsValid ht
      → get ht fh ≡ some file
      → let r = release close ht w fh in release close r.0 r.1 fh ≡ (r.0, r.1, ebadf)
  release_twice ht w fh v g =
      let r = release close ht w fh in
      release_closed r.0 r.1 fh (ground (arith, get-release ht w fh fh v g))

  -- CloseAll keeps the tracker valid, and neither it nor Release takes a number.
  pub close_all-IsValid :
      (order : List ℕ) (ht : HandleTracker File) (w : World)
      → IsValid ht
      → IsValid (close_all close order ht w).0
  unfolding close_all
  close_all-IsValid [] ht w v = v
  close_all-IsValid (fh ∷ order) ht w v = elim (Option-cases (lookup fh ht.handles)) [
    | inl e ↦ rw (e, close_all) (close_all-IsValid order ht w v)
    | inr (entry, e) ↦
        rw (e, close_all)
          (close_all-IsValid order (record ht { handles = remove fh ht.handles }) _
            (forgotten-IsValid ht fh v))
  ]

  pub next_handle-close_all :
      (order : List ℕ) (ht : HandleTracker File) (w : World)
      → (close_all close order ht w).0.next_handle ≡ ht.next_handle
  unfolding close_all
  next_handle-close_all [] ht w = refl
  next_handle-close_all (fh ∷ order) ht w = elim (Option-cases (lookup fh ht.handles)) [
    | inl e ↦ rw (e, close_all) (next_handle-close_all order ht w)
    | inr (entry, e) ↦
        rw (e, close_all)
          (next_handle-close_all order (record ht { handles = remove fh ht.handles }) _)
  ]

  pub next_handle-release :
      (ht : HandleTracker File) (w : World) (fh : ℕ)
      → (release close ht w fh).0.next_handle ≡ ht.next_handle
  unfolding release release_entry
  next_handle-release ht w fh = ground arith

  no_keys : (m : Assoc ℕ (HandleEntry File)) → ((k : ℕ) → lookup k m ≡ none) → m ≡ []
  unfolding lookup
  no_keys [] h = refl
  no_keys ((k, e) ∷ m) h = absurd (ground (arith, h k))

  -- CloseAll leaves no handle open, in whatever order it meets them, if it meets every open one.
  pub count-close_all :
      (order : List ℕ) (ht : HandleTracker File) (w : World)
      → Covers order ht
      → count (close_all close order ht w).0 ≡ 0
  unfolding close_all count
  count-close_all [] ht w c = rw (no_keys ht.handles (λ k. ground (arith, c k)))
  count-close_all (fh ∷ order) ht w c = elim (Option-cases (lookup fh ht.handles)) [
    | inl e ↦ rw (e, close_all) (count-close_all order ht w (λ q h. ground (arith, c q h)))
    | inr (entry, e) ↦
        rw (e, close_all)
          (count-close_all order (record ht { handles = remove fh ht.handles }) _
            (λ q h. ground (arith, c q, lookup-remove fh q ht.handles)))
  ]
