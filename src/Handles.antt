-- ===== src/Handles.antt =====
-- handles.go: the tracker of open files. Each method holds the tracker's mutex throughout.
pub mod Lifecycle
pub mod Before
mod Examples
use fusefs.Common.{
  ℕ, ◌+◌, ◌-◌, ◌%◌, ◌^◌, String, Bool, List, [], ◌∷◌, Option, none, some, length, ◌==◌,
  if◌then◌else◌,
}
use fusefs.Common.Keys.{nat_key}
use fusefs.Common.Assoc.{Assoc, lookup, insert, remove}
use fusefs.Errno.{success, ebadf}
use fusefs.Errors.{GoError, map_error}

-- `ref_count` is an int32 that starts at 1 and that only Release changes.
pub record HandleEntry (File : Type 0) : Type 0 where
  pub file : File
  pub ref_count : ℕ
  pub flags : ℕ
  pub path : String

pub record HandleTracker (File : Type 0) : Type 0 where
  pub handles : Assoc ℕ (HandleEntry File)
  pub next_handle : ℕ

module _ {File : Type 0} where
  unfoldable pub new_handle_tracker : HandleTracker File
  new_handle_tracker = record { handles = []; next_handle = 0 }

  -- The new handle is the counter after it is raised, an atomic uint64.
  unfoldable pub add : HandleTracker File → File → ℕ → String → HandleTracker File × ℕ
  add ht file flags path =
      let fh = (ht.next_handle + 1) % 2 ^ 64 in
      (
        record {
          handles =
              insert fh (record { file = file; ref_count = 1; flags = flags; path = path })
                ht.handles;
          next_handle = fh;
        },
        fh,
      )

  unfoldable pub get_entry : HandleTracker File → ℕ → Option (HandleEntry File)
  get_entry ht fh = lookup fh ht.handles

  unfoldable pub get : HandleTracker File → ℕ → Option File
  get ht fh = elim (lookup fh ht.handles) [ none ↦ none | some entry ↦ some entry.file ]

  unfoldable pub count : HandleTracker File → ℕ
  count ht = length ht.handles

-- `close` is File.Close of the mounted filesystem, over the state of that filesystem.
module _ {File World : Type 0} (close : File → World → World × Option GoError) where
  unfoldable pub release_entry :
      HandleTracker File → World → ℕ → HandleEntry File → HandleTracker File × World × ℕ
  release_entry ht w fh entry =
      let entry' = record entry { ref_count = entry.ref_count - 1 } in
      if entry'.ref_count == 0
      then (let (w', err) = close entry.file w in
          (record ht { handles = remove fh ht.handles }, w', map_error err))
      else (record ht { handles = insert fh entry' ht.handles }, w, success)

  unfoldable pub release : HandleTracker File → World → ℕ → HandleTracker File × World × ℕ
  release ht w fh = elim (lookup fh ht.handles) [
    | none ↦ (ht, w, ebadf)
    | some entry ↦ release_entry ht w fh entry
  ]

  -- The loop of CloseAll, along the order in which `range` visits the handles.
  unfoldable pub close_all : List ℕ → HandleTracker File → World → HandleTracker File × World
  close_all [] ht w = (ht, w)
  close_all (fh ∷ order) ht w = elim (lookup fh ht.handles) [
    | none ↦ close_all order ht w
    | some entry ↦
        let (w', err) = close entry.file w in
        close_all order (record ht { handles = remove fh ht.handles }) w'
  ]
