-- ===== src/Operations/Keeping.antt =====
-- fuse.go: the parts of handlers that leave the inode manager as it is.
use fusefs.Fuse.{
  FuseFs, Handler, Status, attempt_status, pure, count_operation, check_mounted, give_up,
}
use fusefs.Common.{◌≡◌, Option, arith, refl, none, some}

-- A handler that leaves the inode manager, the options and the mount as they are.
unfoldable pub Keeps : {World File A : Type 0} → Handler World File A → Type 0
Keeps {World} {File} h =
    (s : FuseFs World File)
    → ((h s).1.inode_manager ≡ s.inode_manager)
      × ((h s).1.opts ≡ s.opts)
      × ((h s).1.unmounting ≡ s.unmounting)

pub pure-Keeps : (World File : Type 0) → Keeps (pure {World = World} {File = File} tt)
unfolding Keeps
pure-Keeps World File s = (refl, refl, refl)

pub optional-Keeps :
    {World File A B : Type 0} (o : Option A) (n : Handler World File B)
    (f : A → Handler World File B)
    → Keeps n
    → ((a : A) → Keeps (f a))
    → Keeps (elim o [ none ↦ n | some a ↦ f a ])
optional-Keeps none n f hn hf = hn
optional-Keeps (some a) n f hn hf = hf a

module _ (World File : Type 0) where
  pub attempt_status-Keeps : (call : Status World) → Keeps (attempt_status {File = File} call)
  unfolding Keeps attempt_status give_up
  attempt_status-Keeps call s = (ground arith, ground arith, ground arith)

  pub count_operation-Keeps : Keeps (count_operation {World = World} {File = File})
  unfolding Keeps count_operation
  count_operation-Keeps s = (refl, refl, refl)

  pub check_mounted-Keeps : Keeps (check_mounted {World = World} {File = File})
  unfolding Keeps check_mounted
  check_mounted-Keeps s = (refl, refl, refl)
