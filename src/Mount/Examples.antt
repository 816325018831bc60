-- ===== src/Mount/Examples.antt =====
-- Mounting, and unmounting with an open file: tests, and the theorems at inputs that meet their
-- hypotheses. The mounted filesystem counts the calls of Close and knows nothing else.
use fusefs.Common.Keys.{nat_key, string_discrete}
use fusefs.Common.Assoc.{lookup, insert, remove}
use fusefs.Common.{
  refl, ℕ_discrete, false, List, ◌↔◌, ite, ℕ, Option, ◌∷◌, none, ◌≡◌, [], ◌+◌, some, true, String,
}
use fusefs.Mount.{
  unmount, Os, mount, mount_created, mount_on, is_mounted, devices_differ, fuse_options, add_option,
  mount_named,
}
use fusefs.Mount.Mounting.{mount_lem, Mounts}
use fusefs.Errors.{Link}
use fusefs.Fuse.{FileSystem, FuseFs, new_fuse_fs, Status}
use fusefs.Options.{MountOptions, default_mount_options}
use fusefs.Handles.{get, new_handle_tracker, add, close_all}
use fusefs.Absfs.{Outcome, fail, ok}

abbrev broken : {A : Type 0} → ℕ → ℕ × Outcome A
broken w = (w, fail [])

abbrev closing_fs : FileSystem ℕ ℕ
closing_fs = record {
  join = λ dir name. name;
  stat = λ path. broken;
  open_file = λ path flags mode. broken;
  open_dir = λ path. broken;
  read_dir = λ dir. broken;
  mkdir = λ path mode w. (w, none);
  remove = λ path w. (w, none);
  rename = λ old new w. (w, none);
  chtimes = λ path a m w. (w, none);
  close = λ file w. (w + 1, none);
  read = λ file size w. (w, [], none);
  write = λ file bytes w. (w, 0, none);
  file_stat = λ file. broken;
  seek = λ file. none;
  sync = λ file. none;
  truncate = λ file. none;
  allocate = λ file. none;
  chmod = none;
  symlink = none;
  lstat = none;
  link = none;
  read_link = none;
  xattrs = none;
  stat_fs = none;
  getuid = 0;
  getgid = 0;
}

program : Unit {0}
unfolding new_fuse_fs default_mount_options new_handle_tracker add get close_all unmount lookup
    insert remove ℕ_discrete
program = tt

-- Handle 1 is open on file 7, and "/f" has a number.
abbrev busy : FuseFs ℕ ℕ
busy =
    let s : FuseFs ℕ ℕ = new_fuse_fs 0 (default_mount_options "/mnt") in
    record s { handle_tracker = (add s.handle_tracker 7 0 "/f").0 }

abbrev server : Option (Status ℕ)
server = some (λ w. (w + 10, none))

unmount_test :
    (get busy.handle_tracker 1 ≡ some 7) × ((unmount closing_fs server (1 ∷ []) busy).0.world ≡ 11)
unfolding program
unmount_test = (refl, refl)

-- An operating system where every directory but "/full" is empty, "/" is its own parent, and
-- "/mnt" is on a device of its own.
abbrev names_in : String → List String
names_in path = ite (string_discrete path "/full") ("x" ∷ []) []

abbrev device_of : String → ℕ
device_of path = ite (string_discrete path "/mnt") 2 1

abbrev small_os : Os ℕ String
small_os = record {
  mkdir_all = λ path mode w. (w + 1, none);
  read_dir = λ path w. (w + 1, ok (names_in path));
  abs = λ path w. (w, ok path);
  dir = λ path. "/";
  device = λ path w. (w, ok (device_of path));
  mount = λ path options w. (w + 1, ok path);
  wait = λ server w. w;
}

os_program : Unit {0}
unfolding program mount mount_named mount_created mount_on is_mounted devices_differ fuse_options
    add_option string_discrete
os_program = tt

abbrev opts : MountOptions
opts = default_mount_options "/mnt"

abbrev read_only : MountOptions
read_only = record opts { read_only = true; options = "x" ∷ [] }

options_test : (fuse_options read_only).options ≡ "x" ∷ "ro" ∷ "default_permissions" ∷ []
unfolding os_program
options_test = refl

mount_test :
    (mount {File = ℕ} small_os none 0 ≡ (0, fail (Link.opaque ∷ [])))
    × (mount {File = ℕ} small_os (some (default_mount_options "")) 0 ≡ (0, fail (Link.opaque ∷ [])))
    × (mount {File = ℕ} small_os (some (default_mount_options "/full")) 0
        ≡ (2, fail (Link.opaque ∷ [])))
    × ((is_mounted small_os "/" 0).1 ≡ ok false)
unfolding os_program
mount_test = (refl, refl, refl, refl)

mount_lem_example :
    (mount {File = ℕ} small_os (some opts) 0 ≡ (3, ok (new_fuse_fs 3 opts, "/mnt")))
    ↔ Mounts {File = ℕ} small_os opts 0 3 (new_fuse_fs 3 opts) "/mnt"
mount_lem_example = mount_lem small_os opts 0 3 (new_fuse_fs 3 opts) "/mnt"
