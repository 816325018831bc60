-- ===== src/Operations/Listings.antt =====
-- operations.go: the handlers that change a directory, and its cached listing.
use fusefs.Fuse.{
  FileSystem, FuseFs, Handler, Reply, done, on_inodes, Status, errno, ◌>>◌, count_operation,
  check_mounted, attempt_status, require,
}
use fusefs.Cache.Agreement.{Agrees}
use fusefs.Cache.Forgetting.{get-delete}
use fusefs.Inodes.{get_dir_cache, invalidate_dir, InodeManager}
use fusefs.Operations.Directories.{unlink, rmdir, rename}
use fusefs.Common.{String, ℕ, arith, ◌≡◌, none, subst, sym, some}
use fusefs.Cache.Refinement.{delete-PutsLike}
use fusefs.Operations.Keeping.{
  Keeps, attempt_status-Keeps, check_mounted-Keeps, count_operation-Keeps,
}

-- No listing of the directory is cached, whenever it is asked for.
unfoldable pub Unlisted : InodeManager → String → Type 0
Unlisted im path = (now : ℕ) → (get_dir_cache im now path).1 ≡ none

pub invalidated :
    (im : InodeManager) (path : String)
    → Agrees im.dir_cache
    → Unlisted (invalidate_dir im path) path
unfolding Unlisted get_dir_cache invalidate_dir
invalidated im path a now = ground (arith, get-delete im.dir_cache now path path a)

still_invalidated :
    (im : InodeManager) (path other : String)
    → Agrees im.dir_cache
    → Unlisted im path
    → Unlisted (invalidate_dir im other) path
unfolding Unlisted get_dir_cache invalidate_dir
still_invalidated im path other a u now =
    ground (arith, get-delete im.dir_cache now other path a, u now)

invalidate_dir-Agrees :
    (im : InodeManager) (path : String)
    → Agrees im.dir_cache
    → Agrees (invalidate_dir im path).dir_cache
unfolding invalidate_dir
invalidate_dir-Agrees im path a = (delete-PutsLike im.dir_cache a path).agrees

-- A handler that, where it succeeds, leaves no listing of the directory cached.
unfoldable Clears : {World File : Type 0} → String → Handler World File (Unit {0}) → Type 0
Clears {World} {File} path k =
    (s : FuseFs World File)
    → Agrees s.inode_manager.dir_cache
    → (k s).0 ≡ Reply.done tt
    → Unlisted (k s).1.inode_manager path

module _ (World File : Type 0) (path : String) where
  after :
      (k : Handler World File (Unit {0})) (r : Reply (Unit {0})) (s : FuseFs World File)
      → Clears path k
      → Agrees s.inode_manager.dir_cache
      → let x = elim r as (λ _. Reply (Unit {0}) × FuseFs World File) [
        | done _ ↦ k s
        | errno n ↦ (errno n, s)
      ] in
        x.0 ≡ Reply.done tt → Unlisted x.1.inode_manager path
  unfolding Clears
  after k (Reply.done u) s c a h = c s a h
  after k (Reply.errno n) s c a h = absurd (cc h)

  ahead : (h k : Handler World File (Unit {0})) → Keeps h → Clears path k → Clears path (h >> k)
  unfolding Clears Keeps
  ahead h k kh ck s a e =
      after k (h s).0 (h s).1 ck (subst (λ im. Agrees im.dir_cache) (sym (kh s).0) a) e

  invalidate-Clears :
      Clears path (on_inodes {World = World} {File = File} (λ im. invalidate_dir im path))
  unfolding Clears on_inodes
  invalidate-Clears s a e = invalidated s.inode_manager path a

  abbrev forget_dir : String → Handler World File (Unit {0})
  forget_dir p = on_inodes (λ im. invalidate_dir im p)

  invalidate_both-Clears :
      (other : String)
      → Clears path (forget_dir path >> forget_dir other)
        × Clears path (forget_dir other >> forget_dir path)
  unfolding Clears on_inodes
  invalidate_both-Clears other = (
    λ s a e.
        still_invalidated (invalidate_dir s.inode_manager path) path other
          (invalidate_dir-Agrees s.inode_manager path a) (invalidated s.inode_manager path a),
    λ s a e.
        invalidated (invalidate_dir s.inode_manager other) path
          (invalidate_dir-Agrees s.inode_manager other a),
  )

module _ {World File : Type 0} (fs : FileSystem World File) where
  -- The common text of these handlers, whose end is `k`.
  removal :
      (path : String) (call : Status World) (k : Handler World File (Unit {0}))
      → Clears path k
      → Clears path (count_operation >> (check_mounted >> (attempt_status call >> k)))
  removal path call k ck =
      let h3 = attempt_status call >> k in
      let h2 = check_mounted >> h3 in
      let c3 : Clears path h3 =
        ahead World File path _ k (attempt_status-Keeps World File call) ck in
      let c2 : Clears path h2 = ahead World File path _ h3 (check_mounted-Keeps World File) c3 in
      ahead World File path _ h2 (count_operation-Keeps World File) c2

  -- If an Unlink succeeds, then no listing of the directory is cached after it, nor after an Rmdir
  -- of the same name, whatever was cached before, where the cache's map and list agree.
  pub remove-Unlisted :
      (s : FuseFs World File) (path name : String)
      → Agrees s.inode_manager.dir_cache
      → (unlink fs path name s).0 ≡ Reply.done tt
      → Unlisted (unlink fs path name s).1.inode_manager path
        × Unlisted (rmdir fs path name s).1.inode_manager path
  unfolding Clears unlink rmdir
  remove-Unlisted s path name a e =
      let gone = fs.remove (fs.join path name) in
      let k = forget_dir World File path path in
      let one = removal path gone k (invalidate-Clears World File path) s a e in (one, one)

  -- A Rename that succeeds leaves no listing cached of the old directory or of the new one, where
  -- the cache's map and list agree.
  pub rename-Unlisted :
      (s : FuseFs World File) (path name new_parent new_name : String)
      → Agrees s.inode_manager.dir_cache
      → (rename fs path name (some new_parent) new_name s).0 ≡ Reply.done tt
      → let im = (rename fs path name (some new_parent) new_name s).1.inode_manager in
        Unlisted im path × Unlisted im new_parent
  unfolding Clears rename require
  rename-Unlisted s path name new_parent new_name a e =
      let moved = fs.rename (fs.join path name) (fs.join new_parent new_name) in
      let both = forget_dir World File path path >> forget_dir World File path new_parent in
      (
        removal path moved both (invalidate_both-Clears World File path new_parent).0 s a e,
        removal new_parent moved both (invalidate_both-Clears World File new_parent path).1 s a e,
      )
