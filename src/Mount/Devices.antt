-- ===== src/Mount/Devices.antt =====
-- What IsMounted answers.
use fusefs.Common.{ℕ, ◌≡◌, ◌≢◌, ◌↔◌, String, true, arith}
use fusefs.Absfs.{ok}
use fusefs.Mount.{Os, is_mounted, devices_differ}

module _ {World Server : Type 0} (os : Os World Server) (path : String) (w w1 w2 w3 : World)
    (abs : String) (d e : ℕ) where
  -- Where the path has an absolute form and it and its parent have devices, IsMounted answers true
  -- exactly if the two devices differ.
  is_mounted_lem :
      os.abs path w ≡ (w1, ok abs)
      → os.device abs w1 ≡ (w2, ok d)
      → os.device (os.dir abs) w2 ≡ (w3, ok e)
      → ((is_mounted os path w).1 ≡ ok true) ↔ (d ≢ e)
  unfolding is_mounted devices_differ
  is_mounted_lem a p q = (λ h same. ground arith, λ n. ground arith)
