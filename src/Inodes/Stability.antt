-- ===== src/Inodes/Stability.antt =====
-- The number of a path stays while its file is unchanged, and is never another path's.
use fusefs.Common.{
  ℕ, ◌+◌, ◌^◌, ◌≤◌, ◌<◌, ◌≡◌, ◌≢◌, String, none, some, inl, inr, arith, Option-cases, Bool-cases,
  ◌%◌, if_rule, true, false,
}
use fusefs.Common.Keys.{string_key, nat_key}
use fusefs.Common.Assoc.{lookup, remove, lookup-insert, lookup-remove}
use fusefs.Absfs.{FileInfo}
use fusefs.Inodes.{InodeManager, get_inode, allocate, retire, is_same_file, same_meta, InodeMeta}
use fusefs.Inodes.Numbers.{IsValid}

-- What a path has: its number, with the metadata that the number stands for.
unfoldable pub Named : InodeManager → String → ℕ → FileInfo → Type 0
Named im path ino info =
    (lookup path im.path_to_inode ≡ some ino) × (is_same_file im ino info ≡ true)

same_meta_self :
    (info : FileInfo)
    → same_meta (record { mod_time = info.mod_time; size = info.size }) info ≡ true
same_meta_self info = ground arith

allocate-Named :
    (im : InodeManager) (path : String) (info : FileInfo)
    → Named (allocate im path info).0 path (allocate im path info).1 info
unfolding allocate Named is_same_file
allocate-Named im path info =
    let ino = (im.next_inode + 1) % 2 ^ 64 in
    (
      ground (arith, lookup-insert path path ino im.path_to_inode),
      ground (
        arith,
        lookup-insert ino ino (record { mod_time = info.mod_time; size = info.size })
            im.inode_to_meta,
        same_meta_self info,
      ),
    )

-- The number that GetInode answers is the one that the path then has, and the metadata stored for
-- it are those of the file as it is.
pub get_inode-Named :
    (im : InodeManager) (path : String) (info : FileInfo)
    → Named (get_inode im path info).0 path (get_inode im path info).1 info
unfolding get_inode Named
get_inode-Named im path info = elim (Option-cases (lookup path im.path_to_inode)) [
  | inl e ↦ rw (e, get_inode) (unfold Named in allocate-Named im path info)
  | inr (ino, e) ↦ elim (Bool-cases (is_same_file im ino info)) [
    | inl same ↦ rw (e, get_inode, same) (e, same)
    | inr other ↦
        rw (e, get_inode, other) (unfold Named in allocate-Named (retire im ino) path info)
  ]
]

-- While a path has a number whose metadata are those of the file, GetInode answers that number and
-- changes nothing.
pub get_inode_again :
    (im : InodeManager) (path : String) (info : FileInfo) {ino : ℕ}
    → Named im path ino info
    → get_inode im path info ≡ (im, ino)
unfolding get_inode Named
get_inode_again im path info n = rw (n.0, get_inode) (rw n.1)

-- In a valid manager two paths that have one number are one path.
pub get_inode_injective :
    (im : InodeManager) (path q : String) (ino : ℕ)
    → IsValid im
    → lookup path im.path_to_inode ≡ some ino
    → lookup q im.path_to_inode ≡ some ino
    → path ≡ q
get_inode_injective im path q ino v e f = ground (arith, v.forward path ino, v.forward q ino)

allocate-Named_ne :
    (im : InodeManager) (path q : String) (info other : FileInfo) (ino : ℕ)
    → im.next_inode + 1 < 2 ^ 64
    → ino ≤ im.next_inode
    → path ≢ q
    → Named im path ino info
    → Named (allocate im q other).0 path ino info
unfolding allocate Named is_same_file
allocate-Named_ne im path q info other ino small low n named =
    let next : ℕ = (im.next_inode + 1) % 2 ^ 64 in
    let meta : InodeMeta = record { mod_time = other.mod_time; size = other.size } in
    (
      ground (arith, lookup-insert q path next im.path_to_inode),
      ground (arith, lookup-insert next ino meta im.inode_to_meta),
    )

retire-Named_ne :
    (im : InodeManager) (path : String) (info : FileInfo) (ino old : ℕ)
    → old ≢ ino
    → Named im path ino info
    → Named (retire im old) path ino info
unfolding retire Named is_same_file
retire-Named_ne im path info ino old n named =
    (named.0, ground (arith, lookup-remove old ino im.inode_to_meta))

named_low :
    (im : InodeManager) (path : String) (ino : ℕ)
    → IsValid im
    → lookup path im.path_to_inode ≡ some ino
    → ino ≤ im.next_inode
named_low im path ino v e = ground (arith, v.forward path ino, v.bounded ino)

-- GetInode of another path, whatever its file is, leaves a path its number and metadata, where the
-- manager is valid and its counter has not run through.
pub get_inode-Named_ne :
    (im : InodeManager) (path q : String) (info other : FileInfo) (ino : ℕ)
    → IsValid im
    → im.next_inode + 1 < 2 ^ 64
    → path ≢ q
    → Named im path ino info
    → Named (get_inode im q other).0 path ino info
unfolding get_inode
get_inode-Named_ne im path q info other ino v small n named =
    let low : ino ≤ im.next_inode = named_low im path ino v (unfold Named in named.0) in
    elim (Option-cases (lookup q im.path_to_inode)) [
      | inl e ↦ rw (e, get_inode) (allocate-Named_ne im path q info other ino small low n named)
      | inr (old, e) ↦
          rw (e, get_inode)
            (if_rule (λ (r : InodeManager × ℕ). Named r.0 path ino info) (is_same_file im old other)
              (λ _. named)
              λ _.
                unfold retire in
                allocate-Named_ne (retire im old) path q info other ino small low n (
                  retire-Named_ne im path info ino old
                    (λ same. n (
                      get_inode_injective im path q ino v (unfold Named in named.0)
                        (rw (← same) e)))
                    named))
    ]

-- A path with a number whose stored mtime or size differs from the file's gets a number that was
-- beyond the counter and was no path's, and its old number is no path's any more, where the
-- manager is valid and its counter has not run through.
get_inode_changed :
    (im : InodeManager) (path : String) (info : FileInfo) (old : ℕ)
    → IsValid im
    → im.next_inode + 1 < 2 ^ 64
    → lookup path im.path_to_inode ≡ some old
    → is_same_file im old info ≡ false
    → let r = get_inode im path info in
      (lookup r.1 im.inode_to_path ≡ none)
      × (lookup old r.0.inode_to_path ≡ none)
      × (im.next_inode < r.1)
unfolding get_inode allocate retire
get_inode_changed im path info old v small e changed =
    let next : ℕ = (im.next_inode + 1) % 2 ^ 64 in
    rw (e, get_inode, changed)
      (
        v.bounded next (omega arith),
        ground (
          arith,
          lookup-insert next old path (remove old im.inode_to_path),
          lookup-remove old old im.inode_to_path,
          named_low im path old v e,
        ),
        omega arith,
      )

-- Who has a number after GetInode had it before, or the number is the counter's next.
pub numbered-get_inode :
    (im : InodeManager) (path q : String) (info : FileInfo) (i : ℕ)
    → i ≤ im.next_inode
    → im.next_inode + 1 < 2 ^ 64
    → lookup q (get_inode im path info).0.path_to_inode ≡ some i
    → lookup q im.path_to_inode ≡ some i
unfolding get_inode allocate retire
numbered-get_inode im path q info i l room e =
    ground (arith, lookup-insert path q ((im.next_inode + 1) % 2 ^ 64) im.path_to_inode)

-- GetInode never takes the counter back.
pub next_inode-get_inode_le :
    (im : InodeManager) (path : String) (info : FileInfo)
    → im.next_inode + 1 < 2 ^ 64
    → (im.next_inode ≤ (get_inode im path info).0.next_inode)
      × ((get_inode im path info).0.next_inode ≤ im.next_inode + 1)
unfolding get_inode allocate retire
next_inode-get_inode_le im path info room = (ground arith, ground arith)
