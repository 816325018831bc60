-- ===== src/Session/Frames/Attributes.antt =====
-- The handlers of attributes, Access and Statfs keep a framed predicate, up to their allocations.
use fusefs.Common.{String, ℕ, Option, none, some, ◌≡◌, refl}
use fusefs.Fuse.{FuseFs, FileSystem, with_inodes, on_inodes, read_state}
use fusefs.Inodes.{get_cached}
use fusefs.Absfs.{FileInfo, ok}
use fusefs.Handles.{get}
use fusefs.Session.Frames.{IsFrame}
use fusefs.Session.Frames.Answered.{attempt-Spends}
use fusefs.Session.Frames.Rules.{
  Keeps, Spends, bind-Keeps, Keeps-Spends, Spends-Keeps, option-Spends, pure-Keeps, return-Keeps,
  read_state-Keeps, attempt-Keeps, status-Keeps, ignore-Keeps, require-Keeps, cond-Keeps,
  option-Keeps, opening-Keeps, opening-Spends,
}
use fusefs.Session.Frames.Entries.{name-Spends}
use fusefs.Operations.Entries.{FileHandle}
use fusefs.Operations.Attributes.{
  SetAttrIn, Caller, fresh_attr, getattr, truncate_handle, set_size, set_mode, set_time, setattr,
  check_access, access, statfs, store_attr,
}
use fusefs.Operations.{fill_attr}

module _ {World File : Type 0} {fs : FileSystem World File} {P : ℕ → FuseFs World File → Type 0}
    (frame : IsFrame fs P) where
  recall-Keeps : (now : ℕ) (path : String) → Keeps P (with_inodes (λ im. get_cached im now path))
  unfolding with_inodes
  recall-Keeps now path = record { at = λ b s p. frame.recalls b s now path p }

  -- The end of Getattr, with what Stat answered.
  store-Keeps :
      (now : ℕ) (path : String) (w : World) (info : FileInfo) (ino : ℕ)
      → (fs.stat path w).1 ≡ ok info
      → Keeps P (store_attr fs now path info ino)
  unfolding store_attr read_state on_inodes
  store-Keeps now path w info ino e = record {
    at = λ b s p.
        frame.caches b s now path (fill_attr fs s.opts info ino)
          (record { before = w; info = info; ino = ino; answered = e; filled = refl }) p;
  }

  fresh-Spends : (now : ℕ) (path : String) → Spends P (λ _. 1) (fresh_attr fs now path)
  unfolding fresh_attr
  fresh-Spends now path = attempt-Spends frame (fs.stat path) (λ info w e.
      Spends-Keeps frame (name-Spends frame path info) (λ ino. store-Keeps now path w info ino e))

  pub getattr-Spends : (now : ℕ) (path : String) → Spends P (λ _. 1) (getattr fs now path)
  unfolding getattr
  getattr-Spends now path = opening-Spends frame (
      Keeps-Spends frame (recall-Keeps now path) (λ cached.
        Keeps-Spends frame (read_state-Keeps frame)
          (λ s. option-Spends frame cached (fresh-Spends now path) (λ attr. pure-Keeps frame _))))

  truncate-Keeps : (f : Option FileHandle) (size : ℕ) → Keeps P (truncate_handle fs f size)
  unfolding truncate_handle
  truncate-Keeps none size = pure-Keeps frame _
  truncate-Keeps (some fh) size = bind-Keeps frame (read_state-Keeps frame) (λ s.
      option-Keeps frame (get s.handle_tracker fh.handle) (pure-Keeps frame _) (λ file.
        option-Keeps frame (fs.truncate file) (pure-Keeps frame _) (λ call. status-Keeps frame _)))

  set_size-Keeps : (f : Option FileHandle) (size : Option ℕ) → Keeps P (set_size fs f size)
  unfolding set_size
  set_size-Keeps f none = pure-Keeps frame _
  set_size-Keeps f (some size) = truncate-Keeps f size

  set_mode-Keeps : (path : String) (mode : Option ℕ) → Keeps P (set_mode fs path mode)
  unfolding set_mode
  set_mode-Keeps path none = pure-Keeps frame _
  set_mode-Keeps path (some mode) =
      option-Keeps frame fs.chmod (pure-Keeps frame _) (λ chmod. status-Keeps frame _)

  set_time-Keeps : (path : String) (mtime : Option ℕ) → Keeps P (set_time fs path mtime)
  unfolding set_time
  set_time-Keeps path none = pure-Keeps frame _
  set_time-Keeps path (some mtime) = ignore-Keeps frame _

  pub setattr-Spends :
      (now : ℕ) (path : String) (f : Option FileHandle) (input : SetAttrIn)
      → Spends P (λ _. 1) (setattr fs now path f input)
  unfolding setattr
  setattr-Spends now path f input = opening-Spends frame (
      Keeps-Spends frame (set_size-Keeps f input.size) (λ _.
        Keeps-Spends frame (set_mode-Keeps path input.mode) (λ _.
          Keeps-Spends frame (set_time-Keeps path input.mtime) (λ _. getattr-Spends now path))))

  check_access-Keeps :
      (path : String) (caller : Option Caller) (mask : ℕ)
      → Keeps P (check_access fs path caller mask)
  unfolding check_access
  check_access-Keeps path caller mask =
      bind-Keeps frame (attempt-Keeps frame _)
        (λ info. bind-Keeps frame (require-Keeps frame _ _) (λ known. return-Keeps frame _))

  pub access-Keeps :
      (path : String) (caller : Option Caller) (mask : ℕ) → Keeps P (access fs path caller mask)
  unfolding access
  access-Keeps path caller mask = opening-Keeps frame (
      bind-Keeps frame (read_state-Keeps frame) (λ s.
        cond-Keeps frame s.opts.default_permissions (pure-Keeps frame _)
          (check_access-Keeps path caller mask)))

  pub statfs-Keeps : Keeps P (statfs fs)
  unfolding statfs
  statfs-Keeps =
      opening-Keeps frame
        (option-Keeps frame fs.stat_fs (pure-Keeps frame _) (λ call. attempt-Keeps frame _))
