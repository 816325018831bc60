-- ===== src/Operations/Listing.antt =====
-- xattr.go: what Listxattr answers and writes.
use fusefs.Absfs.{ok}
use fusefs.Common.{
  refl, ℕ, ◌-◌, ◌≡◌, List, [], ◌∷◌, none, some, ltb, length, length-append, if◌then◌else◌, arith,
  String, false, ◌%◌, ◌^◌,
}
use fusefs.Operations.Xattrs.{name_list, total_size, fill, listxattr, xattr_fs}
use fusefs.Fuse.{
  FileSystem, FuseFs, count_operation, check_mounted, require, attempt, XattrFs, done,
}

length-name_list : (attrs : List (List ℕ)) → length (name_list attrs) ≡ total_size attrs
unfolding name_list total_size
length-name_list [] = refl
length-name_list (attr ∷ attrs) =
    omega (arith, length-append attr (0 ∷ name_list attrs), length-name_list attrs)

filled :
    (room : ℕ) (attrs : List (List ℕ))
    → fill room attrs ≡ (if ltb room (total_size attrs) then none else some (name_list attrs))
unfolding fill total_size name_list
filled room [] = ground arith
filled room (attr ∷ attrs) = ground (arith, filled (room - length attr - 1) attrs)

module _ {World File : Type 0} (fs : FileSystem World File) (s : FuseFs World File)
    (path : String) where
  -- A Listxattr that is not refused, and whose ListXAttr succeeds, answers without a buffer with
  -- the length of the null-terminated names in their order, as a uint32; with a buffer of at least
  -- this length it writes these and answers the same; with a shorter one it panics.
  pub listxattr_lem :
      (room : ℕ) {xattrs : XattrFs World} {attrs : List (List ℕ)} {w : World}
      → s.unmounting ≡ false
      → fs.xattrs ≡ some xattrs
      → xattrs.list_xattr path s.world ≡ (w, ok attrs)
      → let names = name_list attrs in
        let size = length names in
        ((listxattr fs path none s).0 ≡ done (some (size % 2 ^ 32, [])))
        × ((listxattr fs path (some room) s).0
            ≡ done (if ltb room size then none else some (size % 2 ^ 32, names)))
  unfolding listxattr xattr_fs count_operation check_mounted require attempt
  listxattr_lem room {xattrs} {attrs} m x l =
      let size = length-name_list attrs in
      (ground (arith, size), ground (arith, size, filled room attrs))
