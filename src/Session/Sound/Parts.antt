-- ===== src/Session/Sound/Parts.antt =====
-- A well-formed state, and what the operations of the stores leave of it.
use fusefs.Common.{ℕ, ◌+◌, ◌<◌, ◌^◌, String, List, arith, subst, sym}
use fusefs.Absfs.{FileInfo, Attr, DirEntry}
use fusefs.Cache.{LruCache}
use fusefs.Fuse.{FileSystem, FuseFs}
use fusefs.Inodes.{get_inode, forget_numbers}
use fusefs.Inodes.Numbers.{
  get_inode-IsValid, caches-IsValid, forget_numbers-IsValid, next_inode-get_inode, caches-get_inode,
  new_inode_manager-IsValid,
}
use fusefs.Inodes.Numbers
use fusefs.Handles.{add, close_all, new_handle_tracker}
use fusefs.Handles
use fusefs.Handles.Lifecycle.{
  add-IsValid, release-IsValid, close_all-IsValid, next_handle-close_all, next_handle-release,
  new_handle_tracker-IsValid,
}
use fusefs.Handles.Lifecycle
use fusefs.Locks.History.{Inv}
use fusefs.Cache.Bounds.{IsSound}

-- Numbers and paths are inverse to each other, the caches agree with their lists and respect their
-- limits, the handles are fresh and open once, the locks exclude each other, and both counters
-- have room for so many more.
pub record Sound {World File : Type 0} (b : ℕ) (s : FuseFs World File) : Type 0 where
  pub numbers : Numbers.IsValid s.inode_manager
  pub attrs : IsSound s.opts.max_cached_inodes s.inode_manager.attr_cache
  pub dirs : IsSound s.opts.max_cached_dirs s.inode_manager.dir_cache
  pub handles : Lifecycle.IsValid s.handle_tracker
  pub locks : Inv s.lock_manager
  pub inode_room : s.inode_manager.next_inode + b < 2 ^ 64
  pub handle_room : s.handle_tracker.next_handle + b < 2 ^ 64

module _ {World File : Type 0} (fs : FileSystem World File) where
  pub with_caches :
      (b : ℕ) (s : FuseFs World File) (a : LruCache Attr) (d : LruCache (List DirEntry))
      → IsSound s.opts.max_cached_inodes a
      → IsSound s.opts.max_cached_dirs d
      → Sound b s
      → Sound b
          (record s { inode_manager = record s.inode_manager { attr_cache = a; dir_cache = d } })
  with_caches b s a d va vd v = record {
    numbers = caches-IsValid s.inode_manager a d v.numbers;
    attrs = va;
    dirs = vd;
    handles = v.handles;
    locks = v.locks;
    inode_room = v.inode_room;
    handle_room = v.handle_room;
  }

  pub Sound-names :
      (b b' : ℕ) (s : FuseFs World File) (path : String) (info : FileInfo)
      → b < b'
      → Sound b' s
      → Sound b (record s { inode_manager = (get_inode s.inode_manager path info).0 })
  Sound-names b b' s path info l v =
      let im = s.inode_manager in
      let kept = caches-get_inode im path info in
      record {
        numbers = get_inode-IsValid im path info (omega (arith, v.inode_room)) v.numbers;
        attrs = subst (IsSound s.opts.max_cached_inodes) (sym kept.0) v.attrs;
        dirs = subst (IsSound s.opts.max_cached_dirs) (sym kept.1) v.dirs;
        handles = v.handles;
        locks = v.locks;
        inode_room = omega (arith, v.inode_room, next_inode-get_inode im path info);
        handle_room = omega (arith, v.handle_room);
      }

  pub Sound-opens :
      (b b' : ℕ) (s : FuseFs World File) (file : File) (flags : ℕ) (path : String)
      → b < b'
      → Sound b' s
      → Sound b (record s { handle_tracker = (add s.handle_tracker file flags path).0 })
  Sound-opens b b' s file flags path l v = record {
    numbers = v.numbers;
    attrs = v.attrs;
    dirs = v.dirs;
    handles = add-IsValid s.handle_tracker file flags path (omega (arith, v.handle_room)) v.handles;
    locks = v.locks;
    inode_room = omega (arith, v.inode_room);
    handle_room = unfold add in omega (arith, v.handle_room);
  }

  pub Sound-releases :
      (b : ℕ) (s : FuseFs World File) (fh : ℕ)
      → Sound b s
      → Sound b
          (record s { handle_tracker = (Handles.release fs.close s.handle_tracker s.world fh).0 })
  Sound-releases b s fh v = record {
    numbers = v.numbers;
    attrs = v.attrs;
    dirs = v.dirs;
    handles = release-IsValid fs.close s.handle_tracker s.world fh v.handles;
    locks = v.locks;
    inode_room = v.inode_room;
    handle_room =
        omega (arith, v.handle_room, next_handle-release fs.close s.handle_tracker s.world fh);
  }

  pub Sound-closes :
      (b : ℕ) (s : FuseFs World File) (order : List ℕ)
      → Sound b s
      → Sound b
          (record s { handle_tracker = (close_all fs.close order s.handle_tracker s.world).0 })
  Sound-closes b s order v = record {
    numbers = v.numbers;
    attrs = v.attrs;
    dirs = v.dirs;
    handles = close_all-IsValid fs.close order s.handle_tracker s.world v.handles;
    locks = v.locks;
    inode_room = v.inode_room;
    handle_room =
        omega (arith, v.handle_room, next_handle-close_all fs.close order s.handle_tracker s.world);
  }

  pub Sound-forgets :
      (b : ℕ) (s : FuseFs World File)
      → Sound b s
      → Sound b (record s { inode_manager = forget_numbers s.inode_manager })
  Sound-forgets b s v = record {
    numbers = forget_numbers-IsValid s.inode_manager;
    attrs = v.attrs;
    dirs = v.dirs;
    handles = v.handles;
    locks = v.locks;
    inode_room = v.inode_room;
    handle_room = v.handle_room;
  }
