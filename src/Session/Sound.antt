-- ===== src/Session/Sound.antt =====
-- The whole state after any sequence of calls: every store is well formed.
pub mod Parts
use fusefs.Session.Sound.Parts.{
  Sound, with_caches, Sound-names, Sound-opens, Sound-releases, Sound-closes, Sound-forgets,
}
use fusefs.Common.{ℕ, ◌+◌, ◌<◌, ◌^◌, String, List, arith, subst, sym}
use fusefs.Absfs.{FileInfo, Attr, DirEntry}
use fusefs.Cache.{LruCache}
use fusefs.Fuse.{FileSystem, FuseFs, new_fuse_fs}
use fusefs.Inodes.{
  get_inode, get_cached, cache, cache_dir, get_dir_cache, invalidate_dir, new_inode_manager,
  forget_numbers,
}
use fusefs.Inodes.Numbers.{
  get_inode-IsValid, caches-IsValid, forget_numbers-IsValid, next_inode-get_inode, caches-get_inode,
  new_inode_manager-IsValid,
}
use fusefs.Inodes.Numbers
use fusefs.Handles.{add, close_all, new_handle_tracker}
use fusefs.Handles
use fusefs.Handles.Lifecycle.{
  add-IsValid, release-IsValid, close_all-IsValid, next_handle-close_all, next_handle-release,
  new_handle_tracker-IsValid,
}
use fusefs.Handles.Lifecycle
use fusefs.Locks.History.{Inv, step-Inv, new_lock_manager-Inv}
use fusefs.Cache.Bounds.{
  IsSound, get-IsSound, put-IsSound, delete-IsSound, clear-IsSound, new_lru_cache-IsSound,
}
use fusefs.Options.{MountOptions}
use fusefs.Session.{Request, run, total_cost}
use fusefs.Session.Frames.{IsFrame}
use fusefs.Session.Frames.Requests.{run-P}

module _ {World File : Type 0} (fs : FileSystem World File) where
  pub Sound-IsFrame : IsFrame fs (λ b s. Sound b s)
  unfolding get_cached cache get_dir_cache cache_dir invalidate_dir
  Sound-IsFrame = record {
    weaker = λ b b' s l v. record {
      numbers = v.numbers;
      attrs = v.attrs;
      dirs = v.dirs;
      handles = v.handles;
      locks = v.locks;
      inode_room = omega (arith, v.inode_room, l);
      handle_room = omega (arith, v.handle_room, l);
    };
    framed = λ b s w st v. record {
      numbers = v.numbers;
      attrs = v.attrs;
      dirs = v.dirs;
      handles = v.handles;
      locks = v.locks;
      inode_room = v.inode_room;
      handle_room = v.handle_room;
    };
    names = Sound-names fs;
    recalls = λ b s now path v.
        with_caches fs b s _ _ (get-IsSound _ s.inode_manager.attr_cache v.attrs now path) v.dirs v;
    caches = λ b s now path attr of v.
        with_caches fs b s _ _ (put-IsSound _ s.inode_manager.attr_cache v.attrs now path attr)
          v.dirs v;
    recalls_dir = λ b s now path v.
        with_caches fs b s _ _ v.attrs (get-IsSound _ s.inode_manager.dir_cache v.dirs now path) v;
    caches_dir = λ b s now path entries of v.
        with_caches fs b s _ _ v.attrs
          (put-IsSound _ s.inode_manager.dir_cache v.dirs now path entries) v;
    invalidates = λ b s path v.
        with_caches fs b s _ _ v.attrs (delete-IsSound _ s.inode_manager.dir_cache v.dirs path) v;
    opens = Sound-opens fs;
    releases = Sound-releases fs;
    locks = λ b s c v. record {
      numbers = v.numbers;
      attrs = v.attrs;
      dirs = v.dirs;
      handles = v.handles;
      locks = step-Inv s.lock_manager c v.locks;
      inode_room = v.inode_room;
      handle_room = v.handle_room;
    };
    stops = λ b s v. record {
      numbers = v.numbers;
      attrs = v.attrs;
      dirs = v.dirs;
      handles = v.handles;
      locks = v.locks;
      inode_room = v.inode_room;
      handle_room = v.handle_room;
    };
    closes = Sound-closes fs;
    forgets = Sound-forgets fs;
    clears_attrs = λ b s v.
        with_caches fs b s _ _ (clear-IsSound _ s.inode_manager.attr_cache v.attrs) v.dirs v;
    clears_dirs = λ b s v.
        with_caches fs b s _ _ v.attrs (clear-IsSound _ s.inode_manager.dir_cache v.dirs) v;
  }

  pub new_fuse_fs-Sound :
      (b : ℕ) (w : World) (opts : MountOptions)
      → 1 + b < 2 ^ 64
      → Sound {File = File} b (new_fuse_fs w opts)
  unfolding new_fuse_fs
  new_fuse_fs-Sound b w opts l = record {
    numbers = new_inode_manager-IsValid _ _ _ _;
    attrs = unfold new_inode_manager in new_lru_cache-IsSound Attr _ _;
    dirs = unfold new_inode_manager in new_lru_cache-IsSound (List DirEntry) _ _;
    handles = new_handle_tracker-IsValid File;
    locks = new_lock_manager-Inv;
    inode_room = unfold new_inode_manager in l;
    handle_room = unfold new_handle_tracker in omega (arith, l);
  }

  -- After any sequence of handler calls and Unmounts from a new FuseFS, the state is well formed,
  -- as long as the sequence cannot run through a 64-bit counter (Readdir may take a number for
  -- each entry it answers with, every other call at most two): numbers and paths are inverse to
  -- each other, both caches agree with their lists and respect the limits of the options, no
  -- handle stands twice or is open more than once, and the locks exclude each other.
  pub run-Sound :
      (rs : List (Request World)) (w : World) (opts : MountOptions) (b : ℕ)
      → 1 + total_cost fs rs (new_fuse_fs w opts) + b < 2 ^ 64
      → Sound b (run fs rs (new_fuse_fs w opts))
  run-Sound rs w opts b l =
      run-P Sound-IsFrame rs b (new_fuse_fs w opts)
        (new_fuse_fs-Sound (total_cost fs rs (new_fuse_fs w opts) + b) w opts (omega (arith, l)))
