-- ===== src/Basic/Program.antt =====
-- examples/basic/main.go: a directory of temporary files, mounted until a signal comes. log.Fatal
-- ends the process without the deferred calls; a return runs them, the last one first.
use fusefs.Common.{ℕ, String, false, List, [], ◌∷◌, Option, none, some}
use Prim.Native.String.{◌++◌ as ◌<>◌}
use fusefs.Absfs.{ok, fail, Outcome}
use fusefs.Errors.{GoError}
use fusefs.Fuse.{FuseFs, Status, Call, stats_of}
use fusefs.Handles.{HandleTracker}
use fusefs.Options.{MountOptions, default_mount_options}
use fusefs.Stats.{Stats}
use fusefs.Mount.{Os, mount, unmount}
use fusefs.Session.{Request, run}
use fusefs.Basic.{OsPackage, new_os_fs, file_system}

-- What main calls beside osFS and Mount: os.Args, os.MkdirTemp, os.WriteFile, filepath.Join,
-- fmt.Printf of a text, its %d, log.Fatalf of a text with an error after it, and the Unmount of
-- go-fuse's server.
pub record Process (World Server : Type 0) : Type 0 where
  pub args : List String
  pub mkdir_temp : String → String → Call World String
  pub write_file : String → String → ℕ → Status World
  pub join : List String → String
  pub print : String → World → World
  pub decimal : ℕ → String
  pub log_fatal : String → GoError → World → World
  pub unmount_server : Server → Status World

-- How main ends: by log.Fatal, or by its return, with the filesystem that it mounted.
pub data Exit (World File : Type 0) : Type 0 where
  died : Exit World File
  returned : FuseFs World File → Exit World File

abbrev pub readme : String
readme =
    "# fusefs Example\n\nThis is a FUSE-mounted filesystem.\n\nYou can:\n"
    <> "- Read files: cat documents/hello.txt\n" <> "- List directories: ls -la documents/\n"
    <> "- Create files: echo \"test\" > test.txt\n"
    <> "- Create directories: mkdir mydir\n\nTry it out!\n"

unfoldable pub mountpoint_of : List String → String
mountpoint_of (name ∷ mountpoint ∷ rest) = mountpoint
mountpoint_of _ = "/tmp/fusefs-basic"

unfoldable pub basic_options : String → MountOptions
basic_options mountpoint = record (default_mount_options mountpoint) {
  fs_name = "fusefs-example";
  allow_other = false;
  debug = false;
}

module _ {World File Server : Type 0} (process : Process World Server) where
  -- `if err != nil { log.Fatal(err) }`, and what follows.
  unfoldable pub or_die :
      World × Option GoError → (World → World × Exit World File) → World × Exit World File
  or_die (w, none) next = next w
  or_die (w, some err) next = (process.log_fatal "" err w, died)

module _ {World Server : Type 0} (process : Process World Server) where
  unfoldable pub print_all : List String → World → World
  print_all [] w = w
  print_all (text ∷ texts) w = print_all texts (process.print text w)

  unfoldable pub announce : String → World → World
  announce mountpoint = print_all (
      ("✓ Mounted successfully at " <> mountpoint <> "\n")
      ∷ "Try:\n"
      ∷ ("  ls -la " <> mountpoint <> "\n")
      ∷ ("  cat " <> mountpoint <> "/README.md\n")
      ∷ ("  cat " <> mountpoint <> "/documents/hello.txt\n")
      ∷ "\nPress Ctrl+C to unmount...\n"
      ∷ [])

  unfoldable pub report : Stats → World → World
  report stats = print_all (
      "\nStatistics:\n"
      ∷ ("  Operations:    " <> process.decimal stats.operations <> "\n")
      ∷ ("  Bytes Read:    " <> process.decimal stats.bytes_read <> "\n")
      ∷ ("  Bytes Written: " <> process.decimal stats.bytes_written <> "\n")
      ∷ ("  Errors:        " <> process.decimal stats.errors <> "\n")
      ∷ ("  Open Files:    " <> process.decimal stats.open_files <> "\n")
      ∷ [])

-- `requests` are the calls that come until the signal, and `order` is the order in which CloseAll
-- meets the handles of a tracker.
module _ {World File Server : Type 0} (os : OsPackage World File) (mounter : Os World Server)
    (process : Process World Server) (requests : List (Request World))
    (order : HandleTracker File → List ℕ) where
  unfoldable pub write_content :
      String → (World → World × Exit World File) → World → World × Exit World File
  write_content temp next w =
      or_die process (os.mkdir (process.join (temp ∷ "documents" ∷ [])) 0o755 w) (λ w1.
        or_die process
          (process.write_file (process.join (temp ∷ "documents" ∷ "hello.txt" ∷ [])) "Hello, FUSE!"
            0o644 w1)
          (λ w2.
            or_die process
              (process.write_file (process.join (temp ∷ "documents" ∷ "world.txt" ∷ []))
                "Welcome to fusefs!" 0o644 w2)
              (λ w3.
                or_die process
                  (process.write_file (process.join (temp ∷ "README.md" ∷ [])) readme 0o644 w3)
                  next)))

  -- From the mounted filesystem to the end of main, with the deferred Unmount.
  unfoldable pub serve_mounted : String → FuseFs World File → Server → FuseFs World File
  serve_mounted temp s server =
      let fs = file_system os (new_os_fs temp) in
      let s1 = record s { world = announce process (mountpoint_of process.args) s.world } in
      let s2 = run fs requests s1 in
      let s3 = record s2 {
        world = report process (stats_of s2) (process.print "\nUnmounting...\n" s2.world);
      } in
      (unmount fs (some (process.unmount_server server)) (order s3.handle_tracker) s3).0

  -- The end of main, by what Mount gave.
  unfoldable pub mounted :
      String → World × Outcome (FuseFs World File × Server) → World × Exit World File
  mounted temp (w, fail err) = (process.log_fatal "Failed to mount: " err w, died)
  mounted temp (w, ok (s, server)) = let u = serve_mounted temp s server in (u.world, returned u)

  unfoldable pub mount_temp : String → World → World × Exit World File
  mount_temp temp w =
      let mountpoint = mountpoint_of process.args in
      let w' =
        process.print ("Mounting filesystem from " <> temp <> " at " <> mountpoint <> "...\n") w in
      mounted temp (mount mounter (some (basic_options mountpoint)) w')

  -- The deferred RemoveAll, whose error is not looked at.
  unfoldable pub remove_temp : String → World × Exit World File → World × Exit World File
  remove_temp temp (w, died) = (w, died)
  remove_temp temp (w, returned s) = ((os.remove_all temp w).0, returned s)

  -- What follows os.MkdirTemp, by what that gave.
  unfoldable pub with_temp : World × Outcome String → World × Exit World File
  with_temp (w, fail err) = (process.log_fatal "" err w, died)
  with_temp (w, ok temp) = remove_temp temp (write_content temp (mount_temp temp) w)

  unfoldable pub main : World → World × Exit World File
  main w = with_temp (process.mkdir_temp "" "fusefs-source-*" w)
