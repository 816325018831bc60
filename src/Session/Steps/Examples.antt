-- ===== src/Session/Steps/Examples.antt =====
-- Interleavings over a small mounted filesystem: the theorems at inputs that meet their hypotheses.
use fusefs.Common.{◌≡◌, ◌≤◌, refl, List, [], ◌∷◌, arith, ◌^◌, ◌+◌, String, ℕ, ◌++◌, ◌<◌, ℕ_discrete}
use fusefs.Options.{default_mount_options}
use fusefs.Session.{Request, run, total_cost}
use fusefs.Session.Sound.Parts.{Sound}
use fusefs.Session.Steps.{Step, take_all, allocations, allocates, take}
use fusefs.Session.Steps.Atomic.{take_all-Sound, run-Steps}
use fusefs.Operations.Samples.{info, small_fs, start, opened, handle, entries}
use fusefs.Operations.Attributes.{getattr}
use fusefs.Operations.Directories.{readdir, readdir_among}
use fusefs.Handles
use fusefs.Fuse.{count_operation, check_mounted, with_inodes, read_state, new_fuse_fs}
use fusefs.Inodes.{
  get_cached, cache, get_dir_cache, cache_dir, new_inode_manager, get_inode, allocate,
}
use fusefs.Cache.{
  get, put, hit, find_id, erase_id, is_expired, push_front, evict_over, new_lru_cache,
}
use fusefs.Common.Assoc.{lookup, insert}
use fusefs.Common.Keys.{string_discrete}
use fusefs.Operations.{fill_attr}
use fusefs.Session.Steps.Once.{number_once, handle_once}
use fusefs.Handles.{add, new_handle_tracker}

-- Two calls give "/f" a number, while an Unmount stops the handlers, and Open adds its handle
-- between the two halves of the Clear.
abbrev steps : List (Step small_fs)
steps =
    Step.calls 1
    ∷ Step.names "/f" info
    ∷ Step.stops
    ∷ Step.names "/f" info
    ∷ Step.closes []
    ∷ Step.forgets
    ∷ Step.opens 7 0 "/f"
    ∷ Step.clears_attrs
    ∷ Step.clears_dirs
    ∷ []

steps-allocations : allocations steps ≡ 3
unfolding allocations allocates
steps-allocations = refl

take_all-Sound_example : Sound 0 (take_all small_fs steps start)
take_all-Sound_example =
    take_all-Sound small_fs steps 0 (default_mount_options "/mnt") 0
      (omega (arith, steps-allocations))

run-Steps_example :
    (xs : List (Step small_fs)) × (take_all small_fs xs opened
      ≡ run small_fs (Request.call_release handle ∷ []) opened)
    × (allocations xs ≤ total_cost small_fs (Request.call_release handle ∷ []) opened)
run-Steps_example = run-Steps small_fs (Request.call_release handle ∷ []) opened

-- A Getattr of another goroutine has stored the attributes, and a Readdir a listing.
abbrev cached : List (Step small_fs)
cached =
    Step.caches 100 "/f" 0 info 2 refl
    ∷ Step.caches_dir 100 "/" entries (record {
      before = 0;
      dir = 8;
      opened = refl;
      reading = 1;
      infos = info ∷ [];
      answered = refl;
      names = refl;
      modes = refl;
    })
    ∷ []

program : Unit {0}
unfolding take_all take getattr readdir readdir_among count_operation check_mounted with_inodes
    read_state get_cached cache get_dir_cache cache_dir get put hit find_id erase_id is_expired
    push_front evict_over new_fuse_fs default_mount_options new_inode_manager new_lru_cache lookup
    insert string_discrete fill_attr
program = tt

-- Before and after an Unmount, which takes back neither counter.
abbrev first : List (Step small_fs)
first = Step.names "/f" info ∷ Step.opens 7 0 "/f" ∷ []

abbrev more : List (Step small_fs)
more = Step.names "/g" info ∷ Step.opens 9 0 "/g" ∷ []

first-room : 1 + allocations (first ++ more) < 2 ^ 64
unfolding allocations allocates
first-room = omega arith

once_program : Unit {0}
unfolding program get_inode allocate add new_handle_tracker ℕ_discrete
once_program = tt

number_once_example : ◌≡◌ {A = String} "/f" "/f"
unfolding once_program
number_once_example = number_once small_fs start.opts 0 first more first-room "/f" "/f" 2 refl refl

handle_once_example : ◌≡◌ {A = ℕ} 7 7
unfolding once_program
handle_once_example =
    handle_once small_fs start.opts 0 first more first-room 1 7 7 (unfold Handles.get in refl)
      (unfold Handles.get in refl)
