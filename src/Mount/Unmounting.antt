-- ===== src/Mount/Unmounting.antt =====
-- What Unmount leaves.
use fusefs.Common.{ℕ, true, List, [], Option, none, some, ◌≡◌, refl, arith, String, length, ◌∷◌}
use fusefs.Fuse.{FileSystem, FuseFs, Status}
use fusefs.Handles.{HandleTracker, get, count}
use fusefs.Handles.Lifecycle.{Covers, count-close_all}
use fusefs.Inodes.{clear, total_inodes, get_cached, get_dir_cache}
use fusefs.Common.Keys.{nat_key}
use fusefs.Mount.{unmount}
use fusefs.Cache
use fusefs.Common.Assoc.{lookup, Assoc}

lookup-empty : {V : Type 0} (m : Assoc ℕ V) (q : ℕ) → length m ≡ 0 → lookup q m ≡ none
unfolding lookup
lookup-empty [] q h = refl
lookup-empty (e ∷ m) q h = absurd (omega arith)

pub none_open : {File : Type 0} (ht : HandleTracker File) (q : ℕ) → count ht ≡ 0 → get ht q ≡ none
unfolding count get
none_open ht q h = rw (lookup-empty ht.handles q h, get) refl

module _ {World File : Type 0} (fs : FileSystem World File) where
  -- After Unmount the filesystem counts as unmounting, no handle is open, the inode manager knows
  -- no path and has no attributes or listing cached, and the locks stay, whether there is a server
  -- and whatever it answers, if CloseAll met every open handle.
  pub unmount_lem :
      (server : Option (Status World)) (order : List ℕ) (s : FuseFs World File)
      → Covers order s.handle_tracker
      → let r = (unmount fs server order s).0 in
        (r.unmounting ≡ true)
        × ((q : ℕ) → get r.handle_tracker q ≡ none)
        × (total_inodes r.inode_manager ≡ 0)
        × ((now : ℕ) (path : String) → (get_cached r.inode_manager now path).1 ≡ none)
        × ((now : ℕ) (path : String) → (get_dir_cache r.inode_manager now path).1 ≡ none)
        × (r.lock_manager ≡ s.lock_manager)
  unfolding unmount clear total_inodes get_cached get_dir_cache Cache.clear Cache.get lookup
  unmount_lem none order s c = (
    refl,
    λ q. none_open _ q (count-close_all fs.close order s.handle_tracker s.world c),
    refl,
    λ now path. refl,
    λ now path. refl,
    refl,
  )
  unmount_lem (some call) order s c = (
    refl,
    λ q. none_open _ q (count-close_all fs.close order s.handle_tracker s.world c),
    refl,
    λ now path. refl,
    λ now path. refl,
    refl,
  )
