-- ===== src/Operations/Files.antt =====
-- operations.go and locks.go: the handlers of files and of open handles.
use fusefs.Common.{
  ℕ, ◌+◌, ◌%◌, ◌^◌, String, List, [], ◌∷◌, Option, none, some, ltb, ◌==◌, if◌then◌else◌, length,
  ◌&&◌,
}
use fusefs.Errno.{ebadf, enotsup}
use fusefs.Errors.{GoError, Link, Sentinel}
use fusefs.Fuse.{
  FileSystem, Handler, done, errno, pure, ◌>>=◌, ◌>>◌, count_operation, check_mounted, attempt,
  attempt_status, give_up, read_state, Status, return_errno, FuseFs,
}
use fusefs.Handles.{add, get}
use fusefs.Handles
use fusefs.Locks.{FileLock}
use fusefs.Locks
use fusefs.Locks.Flocks
use fusefs.Stats.{record_read, record_write, record_error}
use fusefs.Operations.{map_open_flags}
use fusefs.Operations.Entries.{FileHandle, add_handle}

-- `err != nil && err != io.EOF`: the sentinel itself, not an error that wraps it.
unfoldable pub read_error : Option GoError → Option GoError
read_error none = none
read_error (some (Link.sentinel Sentinel.eof ∷ [])) = none
read_error (some err) = some err

module _ {World File : Type 0} (fs : FileSystem World File) where
  abbrev H : Type 0 → Type 0
  H A = Handler World File A

  -- Open, where `others` is what other goroutines do between the call of the mounted filesystem
  -- and the rest.
  unfoldable pub open_among : (FuseFs World File → FuseFs World File) → String → ℕ → H FileHandle
  open_among others path flags = do
    count_operation
    check_mounted
    let abs_flags = map_open_flags flags
    file ← attempt (fs.open_file path abs_flags 0)
    λ t. add_handle fs file abs_flags path (others t)

  -- Open, with nothing between.
  unfoldable pub open_node : String → ℕ → H FileHandle
  open_node path flags = open_among (λ t. t) path flags

  -- `handleTracker.Get`, and EBADF with an error counted if it is nil.
  unfoldable pub tracked : FileHandle → H File
  tracked fh s = elim (get s.handle_tracker fh.handle) [
    | none ↦ (errno ebadf, record s { stats = record_error s.stats })
    | some file ↦ (done file, s)
  ]

  -- The same, with no error counted.
  unfoldable pub tracked_quiet : FileHandle → H File
  tracked_quiet fh s =
      (elim (get s.handle_tracker fh.handle) [ none ↦ errno ebadf | some file ↦ done file ], s)

  unfoldable pub if_able : Option (Status World) → H (Unit {0})
  if_able none = pure tt
  if_able (some call) = attempt_status call

  -- `Seek` if the file has it.
  unfoldable pub seek_to : File → ℕ → H (Unit {0})
  seek_to file off = elim (fs.seek file) [ none ↦ pure tt | some seek ↦ attempt_status (seek off) ]

  unfoldable pub read_file : File → ℕ → H (List ℕ)
  read_file file size s =
      let (w, bytes, err) = fs.read file size s.world in
      elim (read_error err) [
        | none ↦ (done bytes, record s { world = w; stats = record_read s.stats (length bytes) })
        | some e ↦ give_up e (record s { world = w })
      ]

  unfoldable pub read : FileHandle → ℕ → ℕ → H (List ℕ)
  read fh size off = do count_operation; file ← tracked fh; seek_to file off; read_file file size

  unfoldable pub write_file : File → List ℕ → H ℕ
  write_file file bytes s =
      let (w, n, err) = fs.write file bytes s.world in
      elim err [
        | none ↦ (done (n % 2 ^ 32), record s { world = w; stats = record_write s.stats n })
        | some e ↦ give_up e (record s { world = w })
      ]

  unfoldable pub write : FileHandle → List ℕ → ℕ → H ℕ
  write fh bytes off = do
    count_operation
    file ← tracked fh
    seek_to file off
    write_file file bytes

  -- The owner whose locks are released is the number of the handle.
  unfoldable pub release_locks : FileHandle → H (Unit {0})
  release_locks fh s =
      (done tt, record s { lock_manager = Locks.release_owner s.lock_manager fh.handle })

  unfoldable pub release_handle : FileHandle → H (Unit {0})
  release_handle fh s =
      let (ht, w, n) = Handles.release fs.close s.handle_tracker s.world fh.handle in
      (errno n, record s { handle_tracker = ht; world = w })

  unfoldable pub release : FileHandle → H (Unit {0})
  release fh = do count_operation; release_locks fh; release_handle fh

  unfoldable pub flush : FileHandle → H (Unit {0})
  flush fh = do count_operation; file ← tracked_quiet fh; if_able (fs.sync file)

  -- The emulation of Allocate: the file is extended if that makes it longer. The new size is an
  -- int64, so from 2 ^ 63 on it is negative, and no file is shorter.
  unfoldable pub extend : File → (ℕ → Status World) → ℕ → H (Unit {0})
  extend file truncate new_size = do
    info ← attempt (fs.file_stat file)
    (if ltb new_size (2 ^ 63) && ltb info.size new_size
        then attempt_status (truncate new_size)
        else pure tt)

  unfoldable pub emulate : File → ℕ → ℕ → ℕ → H (Unit {0})
  emulate file off size mode =
      if mode == 0
      then elim (fs.truncate file) [
        | none ↦ return_errno enotsup
        | some truncate ↦ extend file truncate ((off + size) % 2 ^ 64)
      ]
      else return_errno enotsup

  unfoldable pub allocate : FileHandle → ℕ → ℕ → ℕ → H (Unit {0})
  allocate fh off size mode = do
    count_operation
    file ← tracked fh
    elim (fs.allocate file) [
      | none ↦ emulate file off size mode
      | some call ↦ attempt_status (call off size)
    ]

  -- The file handle is `none` if it is nil or of another type.
  unfoldable pub fsync : Option FileHandle → H (Unit {0})
  fsync f = do
    count_operation
    check_mounted
    elim f [ none ↦ pure tt | some fh ↦ do file ← tracked_quiet fh; if_able (fs.sync file) ]

  -- The lock handlers of locks.go: the answer of the lock manager for the node's path. `errno 0`
  -- is success.
  unfoldable pub getlk : FileHandle → ℕ → FileLock → H FileLock
  getlk fh owner lk = do
    count_operation
    s ← read_state
    pure (Locks.getlk s.lock_manager fh.path owner lk).0

  unfoldable pub on_locks : (Locks.LockManager → Locks.LockManager × ℕ) → H (Unit {0})
  on_locks f s = let (lm, n) = f s.lock_manager in (errno n, record s { lock_manager = lm })

  unfoldable pub setlk : FileHandle → ℕ → FileLock → H (Unit {0})
  setlk fh owner lk = do count_operation; on_locks (λ lm. Locks.setlk lm fh.path owner lk)

  unfoldable pub setlkw : FileHandle → ℕ → FileLock → H (Unit {0})
  setlkw fh owner lk = do count_operation; on_locks (λ lm. Locks.setlkw lm fh.path owner lk)

  unfoldable pub flock : FileHandle → ℕ → ℕ → H (Unit {0})
  flock fh owner flags = do count_operation; on_locks (λ lm. Flocks.flock lm fh.path owner flags)
