-- ===== src/Operations/Closing.antt =====
-- operations.go: what a handle is good for after Open, and after Release.
use fusefs.Fuse.{FileSystem, FuseFs, Reply, count_operation, check_mounted, attempt}
use fusefs.Absfs.{ok}
use fusefs.Errno.{ebadf}
use fusefs.Operations.Entries.{FileHandle, add_handle}
use fusefs.Operations.Files.{
  open_node, tracked, tracked_quiet, read, write, flush, allocate, release, release_locks,
  release_handle, open_among,
}
use fusefs.Handles.Lifecycle.{IsValid, get-release, get-add}
use fusefs.Handles
use fusefs.Locks.Bytes.{holds}
use fusefs.Locks.Release.{holds-release_owner}
use fusefs.Common.Assoc.{IsUnique}
use fusefs.Common.Keys.{string_key}
use fusefs.Common.{
  ℕ, String, List, ◌≡◌, none, some, arith, if◌then◌else◌, ◌==◌, false, ap, ◌+◌, ◌<◌, ◌^◌, ite,
  ℕ_discrete,
}
use fusefs.Errors.{map_error}
use fusefs.Operations.{map_open_flags}

module _ {World File : Type 0} (fs : FileSystem World File) (s : FuseFs World File) where
  -- Read, Write, Flush and Allocate on a handle that is not open answer EBADF and do not call the
  -- mounted filesystem.
  closed_handle :
      (fh : FileHandle) (size off mode : ℕ) (bytes : List ℕ)
      → Handles.get s.handle_tracker fh.handle ≡ none
      → let r1 = read fs fh size off s in
        let r2 = write fs fh bytes off s in
        let r3 = flush fs fh s in
        let r4 = allocate fs fh off size mode s in
        (r1.0 ≡ Reply.errno ebadf)
        × (r1.1.world ≡ s.world)
        × (r2.0 ≡ Reply.errno ebadf)
        × (r2.1.world ≡ s.world)
        × (r3.0 ≡ Reply.errno ebadf)
        × (r3.1.world ≡ s.world)
        × (r4.0 ≡ Reply.errno ebadf)
        × (r4.1.world ≡ s.world)
  unfolding read write flush allocate tracked tracked_quiet count_operation
  closed_handle fh size off mode bytes h = (
    ground arith,
    ground arith,
    ground arith,
    ground arith,
    ground arith,
    ground arith,
    ground arith,
    ground arith,
  )

  -- Releasing an open handle closes its file once and answers with the error of that close; the
  -- handle is unknown after it; and the bytes locked by the owner whose number is the handle's are
  -- unlocked on every file, those of any other owner not. The tracker is valid and each path has
  -- one list of locks.
  pub release_lem :
      (fh : FileHandle) {file : File} (q : String) (o t b : ℕ)
      → IsValid s.handle_tracker
      → IsUnique s.lock_manager.posix_locks
      → Handles.get s.handle_tracker fh.handle ≡ some file
      → let r = release fs fh s in
        (r.0 ≡ Reply.errno (map_error (fs.close file s.world).1))
        × (r.1.world ≡ (fs.close file s.world).0)
        × (Handles.get r.1.handle_tracker fh.handle ≡ none)
        × (holds r.1.lock_manager q o t b
            ≡ (if o == fh.handle then false else holds s.lock_manager q o t b))
  unfolding release release_locks release_handle count_operation
  release_lem fh {file} q o t b v u g =
      let p = get-release fs.close s.handle_tracker s.world fh.handle fh.handle v g in
      (
        ap Reply.errno p.2,
        p.1,
        ground (arith, p.0),
        holds-release_owner s.lock_manager fh.handle q o t b u,
      )

  -- An Open that the mounted filesystem grants, while it is not unmounting, answers with a handle
  -- for the node's path that was not open and that then gives the opened file; every other handle
  -- gives what it gave. The tracker is valid and its counter has not run through.
  pub open_node_lem :
      (path : String) (flags : ℕ) {file : File} {w : World}
      → s.unmounting ≡ false
      → fs.open_file path (map_open_flags flags) 0 s.world ≡ (w, ok file)
      → s.handle_tracker.next_handle + 1 < 2 ^ 64
      → IsValid s.handle_tracker
      → let r = open_node fs path flags s in
        let fh = (Handles.add s.handle_tracker file (map_open_flags flags) path).1 in
        (r.0 ≡ Reply.done (record { path = path; handle = fh }))
        × (r.1.world ≡ w)
        × (Handles.get s.handle_tracker fh ≡ none)
        × ((q : ℕ)
            → Handles.get r.1.handle_tracker q
              ≡ ite (ℕ_discrete fh q) (some file) (Handles.get s.handle_tracker q))
  unfolding open_node open_among add_handle count_operation check_mounted attempt
  open_node_lem path flags {file} {w} m o small v =
      let add = get-add s.handle_tracker file (map_open_flags flags) path in
      (ground arith, ground arith, (add 0 small v).0, λ q. ground (arith, add q small v))
