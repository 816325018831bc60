-- ===== src/Mount/Mounting.antt =====
-- When Mount succeeds, and with what.
use fusefs.Common.{
  ◌≡◌, ◌≢◌, ◌↔◌, String, Bool, ◌&&◌, ◌||◌, List, [], ◌∷◌, none, some, refl, any, ite, true, false,
  ◌++◌, arith, Option,
}
use fusefs.Common.Keys.{string_discrete}
use fusefs.Absfs.{Outcome, ok}
use fusefs.Fuse.{FuseFs, new_fuse_fs}
use fusefs.Errors.{GoError}
use fusefs.Options.{MountOptions}
use fusefs.Mount.{Os, mount, mount_created, mount_on, fuse_options, add_option, mount_named}

module _ {World Server : Type 0} (os : Os World Server) (opts : MountOptions) (w : World) where
  -- What the three calls of Mount answer, one after another.
  abbrev pub creation : World × Option GoError
  creation = os.mkdir_all opts.mountpoint 0o755 w

  abbrev pub reading : World × Outcome (List String)
  reading = os.read_dir opts.mountpoint creation.0

  abbrev pub mounting : World × Outcome Server
  mounting = os.mount opts.mountpoint (fuse_options opts) reading.0

-- What a Mount with these options did that succeeded: the mountpoint has a name, it could be
-- created and read, nothing was in it, and go-fuse mounted a new filesystem there.
pub record Mounts {World File Server : Type 0} (os : Os World Server) (opts : MountOptions)
    (w w' : World) (s : FuseFs World File) (server : Server) : Type 0 where
  pub named : opts.mountpoint ≢ ""
  pub created : (creation os opts w).1 ≡ none
  pub empty : (reading os opts w).1 ≡ ok []
  pub mounted : mounting os opts w ≡ (w', ok server)
  pub fresh : s ≡ new_fuse_fs w' opts

module _ {World File Server : Type 0} (os : Os World Server) (opts : MountOptions) (w w' : World)
    (s : FuseFs World File) (server : Server) where
  mount-Mounts : mount os (some opts) w ≡ (w', ok (s, server)) → Mounts os opts w w' s server
  unfolding mount mount_named mount_created mount_on new_fuse_fs
  mount-Mounts h = record {
    named = λ e. ground arith;
    created = ground arith;
    empty = ground arith;
    mounted = ground arith;
    fresh = ground arith;
  }

  Mounts-mount : Mounts os opts w w' s server → mount os (some opts) w ≡ (w', ok (s, server))
  unfolding mount mount_named mount_created mount_on new_fuse_fs
  Mounts-mount m = ground (arith, m.named, m.created, m.empty, m.mounted, m.fresh)

  -- Mount with options gives a filesystem and a server exactly if the mountpoint has a name, could
  -- be created and read, nothing is in it, and go-fuse mounts there with the options made from
  -- these; the filesystem is then a new one.
  pub mount_lem : (mount os (some opts) w ≡ (w', ok (s, server))) ↔ Mounts os opts w w' s server
  mount_lem = (mount-Mounts, Mounts-mount)

-- Whether the option is this one, or among these.
abbrev pub same : String → String → Bool
same q name = ite (string_discrete name q) true false

abbrev pub has : String → List String → Bool
has q options = any (same q) options

has-append : (q : String) (xs ys : List String) → has q (xs ++ ys) ≡ (has q xs || has q ys)
has-append q [] ys = refl
has-append q (x ∷ xs) ys = ground (arith, has-append q xs ys)

has-add_option :
    (q : String) (set : Bool) (name : String) (options : List String)
    → has q (add_option set name options) ≡ (has q options || (set && same q name))
unfolding add_option
has-add_option q set name options = ground (arith, has-append q options (name ∷ []))

-- An option is passed to go-fuse exactly if it is among the options given, or is ro, direct_io,
-- default_permissions or allow_root and its flag is set.
pub fuse_options_lem :
    (opts : MountOptions) (q : String)
    → has q (fuse_options opts).options ≡ (
        has q opts.options
        || (opts.read_only && same q "ro")
        || (opts.direct_io && same q "direct_io")
        || (opts.default_permissions && same q "default_permissions")
        || (opts.allow_root && same q "allow_root"))
unfolding fuse_options
fuse_options_lem opts q =
    let o1 = add_option opts.read_only "ro" opts.options in
    let o2 = add_option opts.direct_io "direct_io" o1 in
    let o3 = add_option opts.default_permissions "default_permissions" o2 in
    ground (
      arith,
      has-add_option q opts.allow_root "allow_root" o3,
      has-add_option q opts.default_permissions "default_permissions" o2,
      has-add_option q opts.direct_io "direct_io" o1,
      has-add_option q opts.read_only "ro" opts.options,
    )
