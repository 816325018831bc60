-- ===== src/Mount.antt =====
-- mount.go: Mount, Unmount, Wait, MountAndWait and IsMounted. What they call of the operating
-- system and of go-fuse is a record of operations on the same state as the mounted filesystem's.
pub mod Unmounting
pub mod Mounting
pub mod Devices
mod Examples
use fusefs.Common.{
  ℕ, ◌==◌, ◌++◌, not, String, Bool, true, false, List, [], ◌∷◌, Option, none, some, if◌then◌else◌,
  ite,
}
use fusefs.Common.Keys.{string_discrete}
use fusefs.Absfs.{Outcome, ok, fail}
use fusefs.Errors.{GoError, Link}
use fusefs.Fuse.{FileSystem, FuseFs, Status, Call, new_fuse_fs}
use fusefs.Handles.{close_all}
use fusefs.Inodes.{clear}
use fusefs.Options.{MountOptions}

-- go-fuse's fs.Options with its fuse.MountOptions, as far as Mount sets them.
pub record FuseOptions : Type 0 where
  pub name : String
  pub fs_name : String
  pub direct_mount : Bool
  pub debug : Bool
  pub allow_other : Bool
  pub options : List String
  pub max_background : ℕ
  pub max_read_ahead : ℕ
  pub max_write : ℕ
  pub attr_timeout : ℕ
  pub entry_timeout : ℕ

-- os.MkdirAll, os.ReadDir by names, filepath.Abs, filepath.Dir, the device of syscall.Stat, and of
-- go-fuse fs.Mount and the Wait of its server.
pub record Os (World Server : Type 0) : Type 0 where
  pub mkdir_all : String → ℕ → Status World
  pub read_dir : String → Call World (List String)
  pub abs : String → Call World String
  pub dir : String → String
  pub device : String → Call World ℕ
  pub mount : String → FuseOptions → Call World Server
  pub wait : Server → World → World

-- `if set { options = append(options, name) }`
unfoldable pub add_option : Bool → String → List String → List String
add_option set name options = if set then options ++ name ∷ [] else options

unfoldable pub fuse_options : MountOptions → FuseOptions
fuse_options opts = record {
  name = opts.fs_name;
  fs_name = opts.fs_name;
  direct_mount = false;
  debug = opts.debug;
  allow_other = opts.allow_other;
  options = add_option opts.allow_root "allow_root" (
      add_option opts.default_permissions "default_permissions"
        (add_option opts.direct_io "direct_io" (add_option opts.read_only "ro" opts.options)));
  max_background = 12;
  max_read_ahead = opts.max_readahead;
  max_write = opts.max_write;
  attr_timeout = opts.attr_timeout;
  entry_timeout = opts.entry_timeout;
}

-- fmt.Errorf of a text, and of a text around an error.
abbrev pub new_error : GoError
new_error = Link.opaque ∷ []

abbrev pub wrap : GoError → GoError
wrap err = Link.opaque ∷ err

module _ {World File Server : Type 0} (os : Os World Server) where
  -- The end of Mount: the directory is there and was read.
  unfoldable pub mount_on :
      MountOptions → List String → World → World × Outcome (FuseFs World File × Server)
  mount_on opts (entry ∷ entries) w = (w, fail new_error)
  mount_on opts [] w =
      let fuse_fs = new_fuse_fs w opts in
      let (w', result) = os.mount opts.mountpoint (fuse_options opts) w in
      elim result [
        | ok server ↦ (w', ok (record fuse_fs { world = w' }, server))
        | fail err ↦ (w', fail (wrap err))
      ]

  unfoldable pub mount_created : MountOptions → World → World × Outcome (FuseFs World File × Server)
  mount_created opts w =
      let (w', result) = os.read_dir opts.mountpoint w in
      elim result [ ok entries ↦ mount_on opts entries w' | fail err ↦ (w', fail (wrap err)) ]

  -- The mountpoint has a name.
  unfoldable pub mount_named : MountOptions → World → World × Outcome (FuseFs World File × Server)
  mount_named opts w =
      let (w', result) = os.mkdir_all opts.mountpoint 0o755 w in
      elim result [ none ↦ mount_created opts w' | some err ↦ (w', fail (wrap err)) ]

  -- The options are `none` if they are nil.
  unfoldable pub mount : Option MountOptions → World → World × Outcome (FuseFs World File × Server)
  mount none w = (w, fail new_error)
  mount (some opts) w =
      ite (string_discrete opts.mountpoint "") (w, fail new_error) (mount_named opts w)

module _ {World Server : Type 0} (os : Os World Server) where
  -- The server is `none` if it is nil.
  unfoldable pub wait : Option Server → World → World × Option GoError
  wait none w = (w, some new_error)
  wait (some server) w = (os.wait server w, none)

  unfoldable pub mount_and_wait :
      (File : Type 0) → Option MountOptions → World → World × Option GoError
  mount_and_wait File opts w =
      let (w', result) = mount {File = File} os opts w in
      elim result [ ok (s, server) ↦ wait (some server) w' | fail err ↦ (w', some err) ]

  -- Two calls of Stat, and whether their devices differ.
  unfoldable pub devices_differ : String → String → Call World Bool
  devices_differ path parent w =
      let (w', result) = os.device path w in
      elim result [
        | fail err ↦ (w', fail err)
        | ok dev ↦
            let (w'', result') = os.device parent w' in
            elim result' [
              | fail err ↦ (w'', fail err)
              | ok parent_dev ↦ (w'', ok (not (dev == parent_dev)))
            ]
      ]

  unfoldable pub is_mounted : String → Call World Bool
  is_mounted path w =
      let (w', result) = os.abs path w in
      elim result [
        | fail err ↦ (w', fail err)
        | ok abs_path ↦ devices_differ abs_path (os.dir abs_path) w'
      ]

module _ {World File : Type 0} (fs : FileSystem World File) where
  -- `server` is the Unmount of go-fuse's server, if there is a server; `order` is the order in
  -- which CloseAll meets the handles. The locks and the statistics stay.
  unfoldable pub unmount :
      Option (Status World) → List ℕ → FuseFs World File → FuseFs World File × Option GoError
  unmount server order s =
      let (ht, w) = close_all fs.close order s.handle_tracker s.world in
      let s' = record s {
        world = w;
        unmounting = true;
        handle_tracker = ht;
        inode_manager = clear s.inode_manager;
      } in
      elim server [
        | none ↦ (s', none)
        | some call ↦ let (w', err) = call w in (record s' { world = w' }, err)
      ]
