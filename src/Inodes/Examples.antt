-- ===== src/Inodes/Examples.antt =====
-- An inode manager with two named paths: tests, and the theorems at inputs that meet their
-- hypotheses.
use fusefs.Common.{refl, ℕ, ℕ_discrete, false, arith, ◌≡◌, none}
use fusefs.Common.Keys.{string_discrete, string_key, nat_key}
use fusefs.Common.Assoc.{lookup, insert, remove}
use fusefs.Absfs.{FileInfo}
use fusefs.Inodes.{InodeManager, new_inode_manager, get_inode, is_same_file, allocate, retire}
use fusefs.Inodes.Numbers.{IsValid, new_inode_manager-IsValid, get_inode-IsValid}
use fusefs.Inodes.Stability.{Named}

program : Unit {0}
unfolding new_inode_manager get_inode is_same_file allocate retire lookup insert remove
    string_discrete ℕ_discrete Named
program = tt

abbrev file : ℕ → ℕ → FileInfo
file size mod_time = record {
  name = "f";
  size = size;
  mode = 420;
  mod_time = mod_time;
  is_dir = false;
  sys = none;
}

abbrev empty : InodeManager
empty = new_inode_manager 10 10 5 5

abbrev one : InodeManager
one = (get_inode empty "/a" (file 1 1)).0

abbrev two : InodeManager
two = (get_inode one "/b" (file 2 2)).0

one-IsValid : IsValid one
unfolding new_inode_manager
one-IsValid =
    get_inode-IsValid empty "/a" (file 1 1) (omega arith) (new_inode_manager-IsValid 10 10 5 5)

two-IsValid : IsValid two
unfolding program
two-IsValid = get_inode-IsValid one "/b" (file 2 2) (omega arith) one-IsValid

-- The first number is 2, and a changed file has a new one.
numbers_test :
    ((get_inode two "/a" (file 1 1)).1 ≡ 2)
    × ((get_inode two "/b" (file 2 2)).1 ≡ 3)
    × ((get_inode two "/a" (file 1 9)).1 ≡ 4)
unfolding program
numbers_test = (refl, refl, refl)
