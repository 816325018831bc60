-- ===== src/Session/Reports.antt =====
-- What Stats reports after any sequence of calls.
use fusefs.Common.{◌+◌, ◌<◌, ◌≤◌, ◌^◌, ◌≡◌, refl, List, arith, ap, subst}
use fusefs.Fuse.{FileSystem, FuseFs, new_fuse_fs, stats_of}
use fusefs.Inodes
use fusefs.Cache
use fusefs.Cache.{len}
use fusefs.Options.{MountOptions}
use fusefs.Session.{Request, run, total_cost}
use fusefs.Session.Frames.{IsFrame}
use fusefs.Session.Frames.Requests.{run-P}
use fusefs.Session.Sound.{run-Sound}

module _ {World File : Type 0} (fs : FileSystem World File) where
  -- No call changes the options.
  opts-IsFrame : (opts : MountOptions) → IsFrame fs (λ b s. s.opts ≡ opts)
  opts-IsFrame opts = record {
    weaker = λ b b' s l e. e;
    framed = λ b s w st e. e;
    names = λ b b' s path info l e. e;
    recalls = λ b s now path e. e;
    caches = λ b s now path attr of e. e;
    recalls_dir = λ b s now path e. e;
    caches_dir = λ b s now path entries of e. e;
    invalidates = λ b s path e. e;
    opens = λ b b' s file flags path l e. e;
    releases = λ b s fh e. e;
    locks = λ b s c e. e;
    stops = λ b s e. e;
    closes = λ b s order e. e;
    forgets = λ b s e. e;
    clears_attrs = λ b s e. e;
    clears_dirs = λ b s e. e;
  }

  opts-run : (rs : List (Request World)) (s : FuseFs World File) → (run fs rs s).opts ≡ s.opts
  opts-run rs s = run-P (opts-IsFrame s.opts) rs 0 s refl

  -- Stats reports, after any sequence of handler calls and Unmounts from a new FuseFS that cannot
  -- run through a 64-bit counter, the mountpoint of the options, and no more cached attributes and
  -- listings than the limits of the options where these are positive.
  pub stats_of-run :
      (rs : List (Request World)) (w : World) (opts : MountOptions)
      → 1 + total_cost fs rs (new_fuse_fs w opts) < 2 ^ 64
      → let r = stats_of (run fs rs (new_fuse_fs w opts)) in
        (r.mountpoint ≡ opts.mountpoint)
        × (0 < opts.max_cached_inodes → r.inode_stats.attr_cache.size ≤ opts.max_cached_inodes)
        × (0 < opts.max_cached_dirs → r.inode_stats.dir_cache.size ≤ opts.max_cached_dirs)
  unfolding stats_of Inodes.stats Cache.stats len new_fuse_fs
  stats_of-run rs w opts l =
      let v = run-Sound fs rs w opts 0 (omega (arith, l)) in
      let e = opts-run rs (new_fuse_fs w opts) in
      let im = (run fs rs (new_fuse_fs w opts)).inode_manager in
      (
        ap (λ o. o.mountpoint) e,
        subst
            (λ (o : MountOptions).
              0 < o.max_cached_inodes → len im.attr_cache ≤ o.max_cached_inodes)
            e v.attrs.bounded,
        subst (λ (o : MountOptions). 0 < o.max_cached_dirs → len im.dir_cache ≤ o.max_cached_dirs) e
            v.dirs.bounded,
      )
