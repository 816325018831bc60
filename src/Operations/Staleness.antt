-- ===== src/Operations/Staleness.antt =====
-- operations.go: Getattr and the attribute cache.
use fusefs.Fuse.{
  FileSystem, FuseFs, Handler, Reply, done, errno, ignore_status, read_state, ◌>>◌, count_operation,
  check_mounted, with_inodes,
}
use fusefs.Common.{none, some, Option, refl, ◌≡◌, ℕ, String, false, arith, ◌⊎◌, inl, inr, ◌∙◌, ap}
use fusefs.Inodes.{get_cached}
use fusefs.Operations.Entries.{FileHandle}
use fusefs.Operations.Attributes.{
  SetAttrIn, set_size, set_mode, set_time, truncate_handle, getattr, setattr,
}
use fusefs.Handles.{get}
use fusefs.Operations.{AttrOut}
use fusefs.Absfs.{Attr}
use fusefs.Operations.Keeping.{
  Keeps, pure-Keeps, optional-Keeps, attempt_status-Keeps, count_operation-Keeps,
  check_mounted-Keeps,
}

module _ {World File : Type 0} (fs : FileSystem World File) where
  set_size-Keeps : (f : Option FileHandle) (size : Option ℕ) → Keeps (set_size fs f size)
  unfolding Keeps set_size truncate_handle read_state
  set_size-Keeps f none s = (refl, refl, refl)
  set_size-Keeps none (some size) s = (refl, refl, refl)
  set_size-Keeps (some fh) (some size) s =
      optional-Keeps (get s.handle_tracker fh.handle) _ _ (pure-Keeps World File)
        (λ file.
          optional-Keeps (fs.truncate file) _ _ (pure-Keeps World File)
            (λ call. attempt_status-Keeps World File (call size)))
        s

  set_mode-Keeps : (path : String) (mode : Option ℕ) → Keeps (set_mode fs path mode)
  unfolding Keeps set_mode
  set_mode-Keeps path none = pure-Keeps World File
  set_mode-Keeps path (some mode) =
      optional-Keeps fs.chmod _ _ (pure-Keeps World File)
        (λ chmod. attempt_status-Keeps World File (chmod path mode))

  set_time-Keeps : (path : String) (mtime : Option ℕ) → Keeps (set_time fs path mtime)
  unfolding Keeps set_time ignore_status
  set_time-Keeps path none s = (refl, refl, refl)
  set_time-Keeps path (some mtime) s = (refl, refl, refl)

  -- It answers so, or with an errno.
  unfoldable AtMost : {A : Type 0} → Reply A → A → Type 0
  AtMost r a = (r ≡ done a) ⊎ ((n : ℕ) × (r ≡ errno n))

  after :
      {A : Type 0} (k : Handler World File A) (a : A) (r : Reply (Unit {0})) (s : FuseFs World File)
      → AtMost (k s).0 a
      → AtMost
          (elim r as (λ _. Reply A × FuseFs World File) [ done _ ↦ k s | errno n ↦ (errno n, s) ]).0
          a
  unfolding AtMost
  after k a (done u) s h = h
  after k a (errno n) s h = inr (n, refl)

  -- Where the cache has the attributes of the node.
  record HasCached (now : ℕ) (path : String) (out : AttrOut) (s : FuseFs World File) : Type 0 where
    mounted : s.unmounting ≡ false
    cached : (get_cached s.inode_manager now path).1 ≡ some out.attr
    timeout : s.opts.attr_timeout ≡ out.timeout

  kept :
      {A : Type 0} (h : Handler World File A) (now : ℕ) (path : String) (out : AttrOut)
      (s : FuseFs World File)
      → Keeps h
      → HasCached now path out s
      → HasCached now path out (h s).1
  unfolding Keeps
  kept h now path out s k c = record {
    mounted = (k s).2 ∙ c.mounted;
    cached = ap (λ im. (get_cached im now path).1) (k s).0 ∙ c.cached;
    timeout = ap (λ o. o.attr_timeout) (k s).1 ∙ c.timeout;
  }

  getattr-HasCached :
      (now : ℕ) (path : String) (out : AttrOut) (s : FuseFs World File)
      → HasCached now path out s
      → ((getattr fs now path s).0 ≡ done out) × ((getattr fs now path s).1.world ≡ s.world)
  unfolding getattr count_operation check_mounted with_inodes read_state
  getattr-HasCached now path out s c = (ground arith, ground arith)

  module _ (now : ℕ) (path : String) (out : AttrOut) where
    unfoldable Stale : Handler World File AttrOut → Type 0
    Stale k = (s : FuseFs World File) → HasCached now path out s → AtMost (k s).0 out

    ahead :
        (h : Handler World File (Unit {0})) (k : Handler World File AttrOut)
        → Keeps h
        → Stale k
        → Stale (h >> k)
    unfolding Stale
    ahead h k kh hk s c = after k out (h s).0 (h s).1 (hk (h s).1 (kept h now path out s kh c))

    getattr-Stale : Stale (getattr fs now path)
    unfolding Stale AtMost
    getattr-Stale s c = inl (getattr-HasCached now path out s c).0

    setattr-Stale :
        (f : Option FileHandle) (input : SetAttrIn) → Stale (setattr fs now path f input)
    unfolding setattr
    setattr-Stale f input =
        let get = getattr fs now path in
        let time = set_time fs path input.mtime >> get in
        let mode = set_mode fs path input.mode >> time in
        let size = set_size fs f input.size >> mode in
        let h4 : Stale time = ahead _ get (set_time-Keeps path input.mtime) getattr-Stale in
        let h3 : Stale mode = ahead _ time (set_mode-Keeps path input.mode) h4 in
        let h2 : Stale size = ahead _ mode (set_size-Keeps f input.size) h3 in
        let h1 : Stale (check_mounted >> size) = ahead _ size (check_mounted-Keeps World File) h2 in
        ahead _ (check_mounted >> size) (count_operation-Keeps World File) h1

  -- If the attributes of the node are cached and the filesystem is not unmounting, Setattr answers
  -- with those attributes from before, whatever it changed, or with an errno.
  pub setattr-cached :
      (now : ℕ) (path : String) (f : Option FileHandle) (input : SetAttrIn) (s : FuseFs World File)
      (attr : Attr)
      → s.unmounting ≡ false
      → (get_cached s.inode_manager now path).1 ≡ some attr
      → let r = (setattr fs now path f input s).0 in
        (r ≡ done (record { attr = attr; timeout = s.opts.attr_timeout }))
        ⊎ ((n : ℕ) × (r ≡ errno n))
  unfolding Stale AtMost
  setattr-cached now path f input s attr m e =
      setattr-Stale now path (record { attr = attr; timeout = s.opts.attr_timeout }) f input s
        (record { mounted = m; cached = e; timeout = refl })
