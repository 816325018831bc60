-- ===== src/Inodes/Numbers.antt =====
-- The inode numbers: one for each path, never shared, stable while the file is unchanged.
use fusefs.Common.{
  ◌≤◌, List, ℕ, ◌+◌, ◌^◌, ◌<◌, ◌≡◌, ◌≢◌, refl, String, none, some, inl, inr, arith, Option-cases,
  is_none, ◌%◌, if_rule,
}
use fusefs.Common.Keys.{string_key, nat_key}
use fusefs.Common.Assoc.{lookup, lookup-insert, lookup-remove}
use fusefs.Absfs.{FileInfo, Attr, DirEntry}
use fusefs.Cache.{LruCache}
use fusefs.Inodes.{
  InodeManager, get_inode, allocate, retire, new_inode_manager, is_same_file, forget_numbers,
}

-- The two maps are inverse to one another, every number has its metadata, and no number beyond
-- the counter is in use.
pub record IsValid (im : InodeManager) : Type 0 where
  pub forward :
      (p : String) (i : ℕ) → lookup p im.path_to_inode ≡ some i → lookup i im.inode_to_path ≡ some p
  pub backward :
      (p : String) (i : ℕ) → lookup i im.inode_to_path ≡ some p → lookup p im.path_to_inode ≡ some i
  pub bounded : (i : ℕ) → im.next_inode < i → lookup i im.inode_to_path ≡ none
  pub described :
      (i : ℕ) → is_none (lookup i im.inode_to_meta) ≡ is_none (lookup i im.inode_to_path)

pub new_inode_manager-IsValid : (a d s t : ℕ) → IsValid (new_inode_manager a d s t)
unfolding new_inode_manager lookup
new_inode_manager-IsValid a d s t = record {
  forward = λ p i h. absurd (cc h);
  backward = λ p i h. absurd (cc h);
  bounded = λ i h. refl;
  described = λ i. refl;
}

-- Up to its path's stale entry, which the allocation replaces, the manager is valid.
record IsReady (im : InodeManager) (path : String) : Type 0 where
  pub forward :
      (p : String) (i : ℕ)
      → p ≢ path
      → lookup p im.path_to_inode ≡ some i
      → lookup i im.inode_to_path ≡ some p
  pub backward :
      (p : String) (i : ℕ)
      → lookup i im.inode_to_path ≡ some p
      → (p ≢ path) × (lookup p im.path_to_inode ≡ some i)
  pub bounded : (i : ℕ) → im.next_inode < i → lookup i im.inode_to_path ≡ none
  pub described :
      (i : ℕ) → is_none (lookup i im.inode_to_meta) ≡ is_none (lookup i im.inode_to_path)

allocate-IsValid :
    (im : InodeManager) (path : String) (info : FileInfo)
    → im.next_inode + 1 < 2 ^ 64
    → IsReady im path
    → IsValid (allocate im path info).0
unfolding allocate
allocate-IsValid im path info small r =
    let ino = (im.next_inode + 1) % 2 ^ 64 in
    let free = r.bounded ino (omega arith) in
    record {
      forward = λ p i h. ground (
        arith,
        lookup-insert path p ino im.path_to_inode,
        lookup-insert ino i path im.inode_to_path,
        r.forward p i,
      );
      backward = λ p i h. ground (
        arith,
        lookup-insert path p ino im.path_to_inode,
        lookup-insert ino i path im.inode_to_path,
        r.backward p i,
      );
      bounded = λ i h. ground (arith, lookup-insert ino i path im.inode_to_path, r.bounded i);
      described = λ i. ground (
        arith,
        lookup-insert ino i path im.inode_to_path,
        lookup-insert ino i (record { mod_time = info.mod_time; size = info.size })
            im.inode_to_meta,
        r.described i,
      );
    }

new-IsReady :
    (im : InodeManager) (path : String)
    → IsValid im
    → lookup path im.path_to_inode ≡ none
    → IsReady im path
new-IsReady im path v e = record {
  forward = λ p i n h. v.forward p i h;
  backward = λ p i h. let b = v.backward p i h in (λ q. ground arith, b);
  bounded = v.bounded;
  described = v.described;
}

retire-IsReady :
    (im : InodeManager) (path : String) (ino : ℕ)
    → IsValid im
    → lookup path im.path_to_inode ≡ some ino
    → IsReady (retire im ino) path
unfolding retire
retire-IsReady im path ino v e = record {
  forward = λ p i n h.
      ground (arith, lookup-remove ino i im.inode_to_path, v.forward p i, v.forward path ino);
  backward = λ p i h.
      let l = lookup-remove ino i im.inode_to_path in
      let b : lookup p im.path_to_inode ≡ some i = v.backward p i (ground arith) in
      (λ q. ground arith, b);
  bounded = λ i h. ground (arith, lookup-remove ino i im.inode_to_path, v.bounded i);
  described = λ i. ground (
    arith,
    lookup-remove ino i im.inode_to_path,
    lookup-remove ino i im.inode_to_meta,
    v.described i,
  );
}

-- GetInode keeps the inode manager valid, as long as the 64-bit counter has not run through: the
-- two maps are inverse to each other, every number has its metadata, and no number beyond the
-- counter is in use.
pub get_inode-IsValid :
    (im : InodeManager) (path : String) (info : FileInfo)
    → im.next_inode + 1 < 2 ^ 64
    → IsValid im
    → IsValid (get_inode im path info).0
unfolding get_inode
get_inode-IsValid im path info small v = elim (Option-cases (lookup path im.path_to_inode)) [
  | inl e ↦ rw (e, get_inode) (allocate-IsValid im path info small (new-IsReady im path v e))
  | inr (ino, e) ↦
      rw (e, get_inode)
        (if_rule (λ (r : InodeManager × ℕ). IsValid r.0) (is_same_file im ino info) (λ _. v)
          λ _.
            allocate-IsValid (retire im ino) path info (retired im ino small)
              (retire-IsReady im path ino v e))
]
  where
    retired :
        (m : InodeManager) (i : ℕ)
        → m.next_inode + 1 < 2 ^ 64
        → (retire m i).next_inode + 1 < 2 ^ 64
    retired m i h = unfold retire in h

-- Validity speaks of the numbers alone, not of the caches.
pub caches-IsValid :
    (im : InodeManager) (a : LruCache Attr) (d : LruCache (List DirEntry))
    → IsValid im
    → IsValid (record im { attr_cache = a; dir_cache = d })
caches-IsValid im a d v = record {
  forward = v.forward;
  backward = v.backward;
  bounded = v.bounded;
  described = v.described;
}

pub forget_numbers-IsValid : (im : InodeManager) → IsValid (forget_numbers im)
unfolding lookup
forget_numbers-IsValid im = record {
  forward = λ p i h. absurd (cc h);
  backward = λ p i h. absurd (cc h);
  bounded = λ i h. refl;
  described = λ i. refl;
}

-- GetInode takes at most one number.
pub next_inode-get_inode :
    (im : InodeManager) (path : String) (info : FileInfo)
    → (get_inode im path info).0.next_inode ≤ im.next_inode + 1
unfolding get_inode allocate retire
next_inode-get_inode im path info = ground arith

-- GetInode leaves the caches alone.
pub caches-get_inode :
    (im : InodeManager) (path : String) (info : FileInfo)
    → ((get_inode im path info).0.attr_cache ≡ im.attr_cache)
      × ((get_inode im path info).0.dir_cache ≡ im.dir_cache)
unfolding get_inode allocate retire
caches-get_inode im path info = (ground arith, ground arith)
