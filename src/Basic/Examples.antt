-- ===== src/Basic/Examples.antt =====
-- The example program over a small operating system: tests, and the theorems at inputs that meet
-- their hypotheses. The operating system counts its calls; opening gives file 7.
use fusefs.Common.{
  ℕ, ◌+◌, List, [], ◌∷◌, none, String, ◌≡◌, map, ℕ_discrete, arith, ite, ◌≢◌, sym, inl, if_neg, inr,
  ap, ◌∙◌, fun_ext,
}
use Prim.Native.String.{◌++◌ as ◌<>◌, count}
use fusefs.Absfs.{ok, fail}
use fusefs.Common.Keys.{nat_key}
use fusefs.Common.{refl, ◌≡◌}
use text.Mathlib.TextLemmas.{length-append}
use text.Mathlib.TextEquality.{eq_iff}
use fusefs.Basic.{OsPackage, OsFs, file_system, open_file, remove}
use fusefs.Basic.Program.{
  Process, main, with_temp, serve_mounted, Exit, write_content, or_die, basic_options, mount_temp,
  mounted, remove_temp, mountpoint_of, announce, report, print_all,
}
use fusefs.Operations.Samples.{info}
use fusefs.Session.{Request, run, serve}
use fusefs.Mount.{Os, mount, mount_named, mount_created, mount_on, unmount}
use fusefs.Handles.{HandleTracker, close_all, add, new_handle_tracker}
use fusefs.Common.Assoc.{lookup, Assoc, insert}
use fusefs.Fuse.{FuseFs, new_fuse_fs, count_operation, check_mounted, attempt}
use fusefs.Common.Keys.{string_discrete}
use fusefs.Basic.Ending.{main_died}
use fusefs.Basic.Paths.{IsRooted, IsBeneath, Agree, IsAbsolute, seen, confined}
use fusefs.Inodes.{clear}
use fusefs.Options.{default_mount_options}
use fusefs.Operations.Files.{open_node, open_among}
use fusefs.Operations.Entries.{add_handle}

abbrev small_os : OsPackage ℕ ℕ
small_os = record {
  open_file = λ p flag perm w. (w + 1, ok 7);
  mkdir = λ p perm w. (w + 1, none);
  remove = λ p w. (w + 1, none);
  rename = λ p q w. (w + 1, none);
  stat = λ p w. (w + 1, ok info);
  chmod = λ p mode w. (w + 1, none);
  chtimes = λ p a m w. (w + 1, none);
  chown = λ p uid gid w. (w + 1, none);
  read_dir = λ p w. (w + 1, ok ("f" ∷ []));
  read_file = λ p w. (w + 1, ok (65 ∷ []));
  chdir = λ p w. (w + 1, none);
  getwd = λ w. (w + 1, ok "/");
  temp_dir = λ w. "/tmp";
  open_path = λ p w. (w + 1, ok 8);
  create = λ p w. (w + 1, ok 9);
  mkdir_all = λ p perm w. (w + 1, none);
  remove_all = λ p w. (w + 1000, none);
  truncate = λ p size w. (w + 1, none);
  close = λ file w. (w + 1, none);
  file_read = λ file size w. (w + 1, 65 ∷ [], none);
  file_write = λ file bytes w. (w + 1, 1, none);
  file_stat = λ file w. (w + 1, ok info);
  file_readdir = λ file w. (w + 1, ok (info ∷ []));
  seek = λ file off w. (w + 1, none);
  sync = λ file w. (w + 1, none);
  file_truncate = λ file size w. (w + 1, none);
  join = λ dir name. dir <> "/" <> name;
  getuid = 0;
  getgid = 0;
}

-- go-fuse mounts, or does not.
abbrev mounter : Os ℕ ℕ
mounter = record {
  mkdir_all = λ p perm w. (w + 1, none);
  read_dir = λ p w. (w + 1, ok []);
  abs = λ p w. (w, ok p);
  dir = λ p. p;
  device = λ p w. (w, ok 1);
  mount = λ p options w. (w + 1, ok 5);
  wait = λ server w. w;
}

abbrev refusing : Os ℕ ℕ
refusing = record mounter { mount = λ p options w. (w + 1, fail []) }

abbrev process : Process ℕ ℕ
process = record {
  args = "basic" ∷ "/mnt" ∷ [];
  mkdir_temp = λ dir pattern w. (w + 1, ok "/tmp/t");
  write_file = λ p text perm w. (w + 1, none);
  join = λ parts. "/tmp/t/x";
  print = λ text w. w;
  decimal = λ n. "0";
  log_fatal = λ text err w. w + 10;
  unmount_server = λ server w. (w + 100, none);
}

-- One file is opened before the signal.
abbrev requests : List (Request ℕ)
requests = Request.call_open "/f" 0 ∷ []

abbrev keys : HandleTracker ℕ → List ℕ
keys ht = map (λ e. e.0) ht.handles

program : Unit {0}
unfolding main with_temp write_content or_die mount_temp mounted serve_mounted remove_temp
    mountpoint_of mount mount_named mount_created mount_on string_discrete basic_options
    default_mount_options unmount new_fuse_fs close_all run serve open_node open_among
    count_operation check_mounted attempt file_system open_file add_handle add insert
    new_handle_tracker lookup remove ℕ_discrete announce report print_all clear
program = tt

-- What main leaves when go-fuse mounts.
abbrev ended : FuseFs ℕ ℕ
ended =
    serve_mounted small_os mounter process requests keys "/tmp/t"
      (new_fuse_fs 8 (basic_options "/mnt")) 5

refused : (main small_os refusing process requests keys 0).1 ≡ Exit.died
unfolding program
refused = refl

main_died_example :
    main (record small_os { remove_all = λ p w. (w + 7, none) }) refusing process requests keys 0
    ≡ main small_os refusing process requests keys 0
main_died_example =
    main_died small_os refusing process requests keys (λ p w. (w + 7, none)) 0 refused

abbrev rooted : OsFs
rooted = record { root = "/tmp/t" }

rooted-IsRooted : IsRooted rooted
rooted-IsRooted = (ground (arith, eq_iff "/tmp/t" ""), ground (arith, eq_iff "/tmp/t" "/"))

-- Another operating system: its Remove of the empty path does something else.
abbrev other_os : OsPackage ℕ ℕ
other_os = record small_os {
  remove = λ p w. ite (string_discrete p "") (w + 5, none) (w + 1, none);
}

beneath_nonempty : (p : String) → IsBeneath "/tmp/t" p → p ≢ ""
beneath_nonempty p (inl e) h = ground (arith, eq_iff "/tmp/t" "", e, h)
beneath_nonempty p (inr (rest, e)) h =
    omega (arith, length-append "/tmp/t" ("/" <> rest), ap count (sym e ∙ h))

small-other : Agree (IsBeneath "/tmp/t") small_os other_os
small-other = record {
  opens = λ p flag perm i. refl;
  mkdirs = λ p perm i. refl;
  removes = λ p i.
      fun_ext (λ w.
        sym (if_neg (string_discrete p "") (beneath_nonempty p i) (w + 5, none) (w + 1, none)));
  renames = λ p q i j. refl;
  stats = λ p i. refl;
  chmods = λ p mode i. refl;
  chtimes = λ p a m i. refl;
  chowns = λ p uid gid i. refl;
  lists = λ p i. refl;
  reads = λ p i. refl;
  chdirs = λ p i. refl;
  opens_path = λ p i. refl;
  creates = λ p i. refl;
  mkdirs_all = λ p perm i. refl;
  removes_all = λ p i. refl;
  truncates = λ p size i. refl;
}

confined_example : Agree IsAbsolute (seen small_os rooted) (seen other_os rooted)
confined_example = confined rooted small_os other_os rooted-IsRooted small-other
