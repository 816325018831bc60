-- ===== src/Session/Frames/Files.antt =====
-- The handlers of files, of open handles and of locks keep a framed predicate, up to the handle
-- that Open allocates.
use fusefs.Common.{
  refl, sym, subst, ◌≡◌, String, ℕ, ◌==◌, ◌&&◌, ltb, ◌^◌, Option, none, some, List, length,
}
use fusefs.Errors.{GoError}
use fusefs.Errno.{ebadf}
use fusefs.Fuse.{FuseFs, FileSystem, Reply, done, errno, give_up, Status}
use fusefs.Handles.{get}
use fusefs.Handles
use fusefs.Locks.{LockManager, FileLock, setlkw}
use fusefs.Locks.History.{Call, call_setlk, call_flock, call_release, step}
use fusefs.Stats.{record_read, record_write, record_error, StatsCollector}
use fusefs.Session.Frames.{IsFrame}
use fusefs.Session.Frames.Rules.{
  Keeps, Spends, bind-Keeps, Keeps-Spends, pure-Keeps, return-Keeps, count-Keeps, read_state-Keeps,
  attempt-Keeps, status-Keeps, cond-Keeps, option-Keeps, opening-Keeps, opening-Spends,
}
use fusefs.Session.Frames.Entries.{add-Spends}
use fusefs.Operations.Entries.{FileHandle}
use fusefs.Operations.Files.{
  read_error, open_node, tracked, tracked_quiet, if_able, seek_to, read_file, read, write_file,
  write, release_locks, release_handle, release, flush, extend, emulate, allocate, fsync, getlk,
  on_locks, setlk, flock, open_among,
}
use fusefs.Operations.Files

module _ {World File : Type 0} {fs : FileSystem World File} {P : ℕ → FuseFs World File → Type 0}
    (frame : IsFrame fs P) where
  pub open-Spends : (path : String) (flags : ℕ) → Spends P (λ _. 1) (open_node fs path flags)
  unfolding open_node open_among
  open-Spends path flags =
      opening-Spends frame
        (Keeps-Spends frame (attempt-Keeps frame _) (λ file. add-Spends frame file _ path))

  tracked-Keeps : (fh : FileHandle) → Keeps P (tracked fs fh)
  unfolding tracked
  tracked-Keeps fh = record { at = λ b s p. tracked-P (get s.handle_tracker fh.handle) b s p }
    where
      tracked-P :
          (o : Option File) (b : ℕ) (s : FuseFs World File)
          → P b s
          → P b
              (elim o as (λ _. Reply File × FuseFs World File) [
                | none ↦ (errno ebadf, record s { stats = record_error s.stats })
                | some file ↦ (done file, s)
              ]).1
      tracked-P none b s p = frame.framed b s s.world _ p
      tracked-P (some file) b s p = p

  tracked_quiet-Keeps : (fh : FileHandle) → Keeps P (tracked_quiet fs fh)
  unfolding tracked_quiet
  tracked_quiet-Keeps fh = record { at = λ b s p. p }

  able-Keeps : (o : Option (Status World)) → Keeps P (if_able fs o)
  unfolding if_able
  able-Keeps none = pure-Keeps frame _
  able-Keeps (some call) = status-Keeps frame _

  seek-Keeps : (file : File) (off : ℕ) → Keeps P (seek_to fs file off)
  unfolding seek_to
  seek-Keeps file off =
      option-Keeps frame (fs.seek file) (pure-Keeps frame _) (λ seek. status-Keeps frame _)

  -- The end of a read or a write, by its error.
  finished-P :
      {A : Type 0} (r : Option GoError) (a : A) (w : World) (st : StatsCollector) (b : ℕ)
      (s : FuseFs World File)
      → P b s
      → P b
          (elim r as (λ _. Reply A × FuseFs World File) [
            | none ↦ (done a, record s { world = w; stats = st })
            | some e ↦ give_up e (record s { world = w })
          ]).1
  unfolding give_up
  finished-P none a w st b s p = frame.framed b s w st p
  finished-P (some e) a w st b s p = frame.framed b s w _ p

  read_file-Keeps : (file : File) (size : ℕ) → Keeps P (read_file fs file size)
  unfolding read_file
  read_file-Keeps file size = record {
    at = λ b s p.
        let (w, bytes, err) = fs.read file size s.world in
        finished-P (read_error err) bytes w (record_read s.stats (length bytes)) b s p;
  }

  write_file-Keeps : (file : File) (bytes : List ℕ) → Keeps P (write_file fs file bytes)
  unfolding write_file
  write_file-Keeps file bytes = record {
    at = λ b s p.
        let (w, n, err) = fs.write file bytes s.world in
        finished-P err _ w (record_write s.stats n) b s p;
  }

  pub read-Keeps : (fh : FileHandle) (size off : ℕ) → Keeps P (read fs fh size off)
  unfolding read
  read-Keeps fh size off = bind-Keeps frame (count-Keeps frame) (λ _.
      bind-Keeps frame (tracked-Keeps fh)
        (λ file. bind-Keeps frame (seek-Keeps file off) (λ _. read_file-Keeps file size)))

  pub write-Keeps : (fh : FileHandle) (bytes : List ℕ) (off : ℕ) → Keeps P (write fs fh bytes off)
  unfolding write
  write-Keeps fh bytes off = bind-Keeps frame (count-Keeps frame) (λ _.
      bind-Keeps frame (tracked-Keeps fh)
        (λ file. bind-Keeps frame (seek-Keeps file off) (λ _. write_file-Keeps file bytes)))

  release_locks-Keeps : (fh : FileHandle) → Keeps P (release_locks fs fh)
  unfolding release_locks step
  release_locks-Keeps fh = record { at = λ b s p. frame.locks b s (call_release fh.handle) p }

  -- Release of a handle changes the handles, and then the filesystem with the close.
  release_handle-Keeps : (fh : FileHandle) → Keeps P (release_handle fs fh)
  unfolding release_handle
  release_handle-Keeps fh = record {
    at = λ b s p.
        let r = Handles.release fs.close s.handle_tracker s.world fh.handle in
        frame.framed b (record s { handle_tracker = r.0 }) r.1 s.stats
          (frame.releases b s fh.handle p);
  }

  pub release-Keeps : (fh : FileHandle) → Keeps P (release fs fh)
  unfolding release
  release-Keeps fh =
      bind-Keeps frame (count-Keeps frame)
        (λ _. bind-Keeps frame (release_locks-Keeps fh) (λ _. release_handle-Keeps fh))

  pub flush-Keeps : (fh : FileHandle) → Keeps P (flush fs fh)
  unfolding flush
  flush-Keeps fh =
      bind-Keeps frame (count-Keeps frame)
        (λ _. bind-Keeps frame (tracked_quiet-Keeps fh) (λ file. able-Keeps (fs.sync file)))

  extend-Keeps :
      (file : File) (call : ℕ → Status World) (size : ℕ) → Keeps P (extend fs file call size)
  unfolding extend
  extend-Keeps file call size = bind-Keeps frame (attempt-Keeps frame _) (λ info.
      cond-Keeps frame (ltb size (2 ^ 63) && ltb info.size size) (status-Keeps frame _)
        (pure-Keeps frame _))

  emulate-Keeps : (file : File) (off size mode : ℕ) → Keeps P (emulate fs file off size mode)
  unfolding emulate
  emulate-Keeps file off size mode =
      cond-Keeps frame (mode == 0)
        (option-Keeps frame (fs.truncate file) (return-Keeps frame _)
          (λ call. extend-Keeps file call _))
        (return-Keeps frame _)

  pub allocate-Keeps :
      (fh : FileHandle) (off size mode : ℕ) → Keeps P (allocate fs fh off size mode)
  unfolding allocate
  allocate-Keeps fh off size mode = bind-Keeps frame (count-Keeps frame) (λ _.
      bind-Keeps frame (tracked-Keeps fh) (λ file.
        option-Keeps frame (fs.allocate file) (emulate-Keeps file off size mode)
          (λ call. status-Keeps frame _)))

  pub fsync-Keeps : (f : Option FileHandle) → Keeps P (fsync fs f)
  unfolding fsync
  fsync-Keeps f = opening-Keeps frame (
      option-Keeps frame f (pure-Keeps frame _)
        (λ fh. bind-Keeps frame (tracked_quiet-Keeps fh) (λ file. able-Keeps (fs.sync file))))

  pub getlk-Keeps : (fh : FileHandle) (owner : ℕ) (lk : FileLock) → Keeps P (getlk fs fh owner lk)
  unfolding getlk
  getlk-Keeps fh owner lk =
      bind-Keeps frame (count-Keeps frame)
        (λ _. bind-Keeps frame (read_state-Keeps frame) (λ s. pure-Keeps frame _))

  locking-Keeps :
      (f : LockManager → LockManager × ℕ) (c : Call)
      → ((lm : LockManager) → (f lm).0 ≡ step lm c)
      → Keeps P (on_locks fs f)
  unfolding on_locks
  locking-Keeps f c e = record {
    at = λ b s p.
        subst (λ lm. P b (record s { lock_manager = lm })) (sym (e s.lock_manager))
          (frame.locks b s c p);
  }

  pub setlk-Keeps : (fh : FileHandle) (owner : ℕ) (lk : FileLock) → Keeps P (setlk fs fh owner lk)
  unfolding setlk step
  setlk-Keeps fh owner lk =
      bind-Keeps frame (count-Keeps frame)
        (λ _. locking-Keeps _ (call_setlk fh.path owner lk) (λ lm. refl))

  pub setlkw-Keeps :
      (fh : FileHandle) (owner : ℕ) (lk : FileLock) → Keeps P (Files.setlkw fs fh owner lk)
  unfolding Files.setlkw setlkw step
  setlkw-Keeps fh owner lk =
      bind-Keeps frame (count-Keeps frame)
        (λ _. locking-Keeps _ (call_setlk fh.path owner lk) (λ lm. refl))

  pub flock-Keeps : (fh : FileHandle) (owner flags : ℕ) → Keeps P (flock fs fh owner flags)
  unfolding flock step
  flock-Keeps fh owner flags =
      bind-Keeps frame (count-Keeps frame)
        (λ _. locking-Keeps _ (call_flock fh.path owner flags) (λ lm. refl))
