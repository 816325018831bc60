-- ===== src/Session/Examples.antt =====
-- Sessions over a small mounted filesystem: tests, and the theorems at inputs that meet their
-- hypotheses.
use fusefs.Cache
use fusefs.Common.{
  refl, ℕ, ◌≡◌, ◌≤◌, ◌<◌, ◌+◌, ◌^◌, String, true, none, List, [], ◌∷◌, arith, ℕ_discrete, some,
  false,
}
use fusefs.Common.Assoc.{lookup, insert, remove}
use fusefs.Fuse.{new_fuse_fs, stats_of, count_operation, check_mounted, attempt, Reply}
use fusefs.Options.{default_mount_options}
use fusefs.Locks.{f_wrlck}
use fusefs.Mount.{unmount}
use fusefs.Handles.{get, add, new_handle_tracker, count}
use fusefs.Handles.Lifecycle.{Covers}
use fusefs.Operations.{map_open_flags}
use fusefs.Operations.Entries.{add_handle}
use fusefs.Operations.Files.{open_node, open_among}
use fusefs.Inodes.{total_inodes, get_cached, get_dir_cache}
use fusefs.Session.{Request, run, total_cost, cost}
use fusefs.Session.Sound.Parts.{Sound}
use fusefs.Session.Sound.{run-Sound}
use fusefs.Session.Ended.{after_unmount}
use fusefs.Session.Ended.Calls.{is_unmount}
use fusefs.Session.Reports.{stats_of-run}
use fusefs.Operations.Samples.{small_fs, start, opened, handle}
use fusefs.Session.Ended.Late.{late_open}

-- "/f" is looked up, opened, locked, written and released, and a directory is made.
abbrev calls : List (Request ℕ)
calls =
    Request.call_lookup "/" "f"
    ∷ Request.call_open "/f" 2
    ∷ Request.call_setlk handle 5 (record { start = 0; end = 10; typ = f_wrlck; pid = 40 })
    ∷ Request.call_write handle (65 ∷ 66 ∷ []) 0
    ∷ Request.call_getattr 100 "/f"
    ∷ Request.call_release handle
    ∷ Request.call_mkdir "/" "d" 0o755
    ∷ []

calls-total_cost : total_cost small_fs calls start ≡ 14
unfolding total_cost cost
calls-total_cost = refl

room : 1 + total_cost small_fs calls (new_fuse_fs 0 (default_mount_options "/mnt")) + 0 < 2 ^ 64
room = omega (arith, calls-total_cost)

run-Sound_example : Sound 0 (run small_fs calls start)
run-Sound_example = run-Sound small_fs calls 0 (default_mount_options "/mnt") 0 room

program : Unit {0}
unfolding new_fuse_fs default_mount_options new_handle_tracker add add_handle get open_node
    open_among count_operation check_mounted attempt map_open_flags lookup insert remove ℕ_discrete
    is_unmount
program = tt

opened-Covers : Covers (1 ∷ []) opened.handle_tracker
unfolding program
opened-Covers fh h = ground arith

-- Handle 1 is open when Unmount comes, and a Read of it follows.
after_unmount_example :
    let t = (unmount small_fs none (1 ∷ []) opened).0 in
    let r = run small_fs (Request.call_lookup "/" "f" ∷ Request.call_read handle 8 0 ∷ []) t in
    (r.unmounting ≡ true)
    × (r.world ≡ t.world)
    × ((fh : ℕ) → get r.handle_tracker fh ≡ none)
    × (total_inodes r.inode_manager ≡ 0)
    × ((now : ℕ) (path : String) → (get_cached r.inode_manager now path).1 ≡ none)
    × ((now : ℕ) (path : String) → (get_dir_cache r.inode_manager now path).1 ≡ none)
after_unmount_example =
    after_unmount small_fs none (1 ∷ []) opened
      (Request.call_lookup "/" "f" ∷ Request.call_read handle 8 0 ∷ []) opened-Covers
      (unfold is_unmount in refl)

stats_of-run_example :
    let r = stats_of (run small_fs calls start) in
    (r.mountpoint ≡ "/mnt")
    × (0 < 10000 → r.inode_stats.attr_cache.size ≤ 10000)
    × (0 < 1000 → r.inode_stats.dir_cache.size ≤ 1000)
unfolding default_mount_options
stats_of-run_example =
    stats_of-run small_fs calls 0 (default_mount_options "/mnt") (omega (arith, calls-total_cost))

opened_mounted : opened.unmounting ≡ false
unfolding program
opened_mounted = refl

mounted : start.unmounting ≡ false
unfolding new_fuse_fs
mounted = refl

-- "f" is removed after the directory was read, and listed from the cache.
abbrev removal : List (Request ℕ)
removal = Request.call_unlink "/" "f" ∷ []

-- Another Open of "/f" has file 7 when Unmount comes, and tracks it after a failed Lookup.
late_open_example :
    let r =
      open_among small_fs
        (λ t. run small_fs (Request.call_lookup "/" "f" ∷ []) (unmount small_fs none (1 ∷ []) t).0)
        "/f"
        0
        opened in
    (r.1.unmounting ≡ true)
    × (fh : ℕ) × (r.0 ≡ Reply.done (record { path = "/f"; handle = fh }))
    × (get r.1.handle_tracker fh ≡ some 7)
    × (count r.1.handle_tracker ≡ 1)
late_open_example =
    late_open small_fs none (1 ∷ []) opened (Request.call_lookup "/" "f" ∷ []) "/f" 0 {file = 7}
      opened_mounted refl opened-Covers (unfold is_unmount in refl)
