-- ===== src/Handles/Examples.antt =====
-- The handle tracker with two open files: a test. Closing a file adds its number to the state, and
-- file 9 cannot be closed.
use fusefs.Common.{refl, ℕ_discrete, ℕ, ◌≡◌, ◌∷◌, Option, some, none, [], ◌+◌, if◌then◌else◌, ◌==◌}
use fusefs.Common.Assoc.{lookup, insert, remove}
use fusefs.Handles.{
  HandleTracker, new_handle_tracker, add, get, count, release, release_entry, close_all,
}
use fusefs.Errors.{GoError, Link, map_error, as_errno, errno_or_eio}

abbrev close : ℕ → ℕ → ℕ × Option GoError
close file w = (w + file, if file == 9 then some (Link.errno 5 ∷ []) else none)

program : Unit {0}
unfolding new_handle_tracker add get release release_entry count close_all map_error as_errno
    errno_or_eio lookup insert remove ℕ_discrete
program = tt

abbrev first : HandleTracker ℕ
first = (add new_handle_tracker 7 0 "/a").0

abbrev two : HandleTracker ℕ
two = (add first 9 1 "/b").0

two_test :
    (get two 1 ≡ some 7)
    × (get two 2 ≡ some 9)
    × ((release close two 100 2).1 ≡ 109)
    × ((release close two 100 2).2 ≡ 5)
    × (get (release close two 100 2).0 2 ≡ none)
unfolding program
two_test = (refl, refl, refl, refl, refl)
