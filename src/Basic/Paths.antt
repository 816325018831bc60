-- ===== src/Basic/Paths.antt =====
-- The paths that osFS hands to the os package.
use fusefs.Common.{ℕ, ◌≡◌, ◌≢◌, ◌⊎◌, inl, inr, refl, ap, sym, String, arith, ◌∙◌}
use fusefs.Common.Keys.{string_discrete}
use Prim.Native.String.{◌++◌ as ◌<>◌, count}
use text.Mathlib.TextLemmas.{append_cancel_left, append-nil, length-append}
use fusefs.Basic.{
  OsPackage, OsFs, path, open_file, mkdir, remove, rename, stat, chmod, chtimes, chown, read_dir,
  read_file, chdir, open_path, create, mkdir_all, remove_all, truncate,
}

-- A root other than the one of the system.
abbrev pub IsRooted : OsFs → Type 0
IsRooted fs = (fs.root ≢ "") × (fs.root ≢ "/")

-- A name that starts with a slash.
abbrev pub IsAbsolute : String → Type 0
IsAbsolute name = (rest : String) × (name ≡ "/" <> rest)

-- The root, or a path that goes on from it after a slash.
abbrev pub IsBeneath : String → String → Type 0
IsBeneath root p = (p ≡ root) ⊎ ((rest : String) × (p ≡ root <> "/" <> rest))

module _ (fs : OsFs) (rooted : IsRooted fs) where
  path_root : path fs "/" ≡ fs.root
  unfolding path string_discrete
  path_root = ground (arith, rooted.0, rooted.1)

  path_other : (name : String) → name ≢ "/" → path fs name ≡ fs.root <> name
  unfolding path
  path_other name n = ground (arith, rooted.0, rooted.1, n)

  path-IsBeneath : (name : String) → IsAbsolute name → IsBeneath fs.root (path fs name)
  path-IsBeneath name (rest, e) = elim (string_discrete name "/") [
    | yes h ↦ inl (rw h path_root)
    | no n ↦ inr (rest, path_other name n ∙ rw e refl)
  ]

  -- A name after the root is longer than the root.
  longer : (name : String) → IsAbsolute name → fs.root ≢ fs.root <> name
  longer name (rest, e) h =
      let gone : "/" <> rest ≡ "" =
        sym e ∙ sym (append_cancel_left fs.root "" name (append-nil fs.root ∙ h)) in
      absurd (omega (arith, length-append "/" rest, ap count gone))

  -- No two absolute names have the same path, where the root is one other than the system's.
  path_injective : (a b : String) → IsAbsolute a → IsAbsolute b → path fs a ≡ path fs b → a ≡ b
  path_injective a b absolute absolute' h = elim (string_discrete a "/") [
    | yes e ↦ elim (string_discrete b "/") [
      | yes e' ↦ e ∙ sym e'
      | no n ↦ absurd (longer b absolute' (sym (rw e path_root) ∙ h ∙ path_other b n))
    ]
    | no n ↦ elim (string_discrete b "/") [
      | yes e ↦ absurd (longer a absolute (sym (rw e path_root) ∙ sym h ∙ path_other a n))
      | no n' ↦ append_cancel_left fs.root a b (sym (path_other a n) ∙ h ∙ path_other b n')
    ]
  ]

-- Two operating systems that agree on the paths of a set.
pub record Agree {World File : Type 0} (In : String → Type 0) (os os' : OsPackage World File)
    : Type 0 where
  pub opens :
      (p : String) (flag perm : ℕ) → In p → os.open_file p flag perm ≡ os'.open_file p flag perm
  pub mkdirs : (p : String) (perm : ℕ) → In p → os.mkdir p perm ≡ os'.mkdir p perm
  pub removes : (p : String) → In p → os.remove p ≡ os'.remove p
  pub renames : (p q : String) → In p → In q → os.rename p q ≡ os'.rename p q
  pub stats : (p : String) → In p → os.stat p ≡ os'.stat p
  pub chmods : (p : String) (mode : ℕ) → In p → os.chmod p mode ≡ os'.chmod p mode
  pub chtimes : (p : String) (a m : ℕ) → In p → os.chtimes p a m ≡ os'.chtimes p a m
  pub chowns : (p : String) (uid gid : ℕ) → In p → os.chown p uid gid ≡ os'.chown p uid gid
  pub lists : (p : String) → In p → os.read_dir p ≡ os'.read_dir p
  pub reads : (p : String) → In p → os.read_file p ≡ os'.read_file p
  pub chdirs : (p : String) → In p → os.chdir p ≡ os'.chdir p
  pub opens_path : (p : String) → In p → os.open_path p ≡ os'.open_path p
  pub creates : (p : String) → In p → os.create p ≡ os'.create p
  pub mkdirs_all : (p : String) (perm : ℕ) → In p → os.mkdir_all p perm ≡ os'.mkdir_all p perm
  pub removes_all : (p : String) → In p → os.remove_all p ≡ os'.remove_all p
  pub truncates : (p : String) (size : ℕ) → In p → os.truncate p size ≡ os'.truncate p size

-- The operating system as osFS shows it to its callers.
abbrev pub seen : {World File : Type 0} → OsPackage World File → OsFs → OsPackage World File
seen os fs = record os {
  open_file = open_file os fs;
  mkdir = mkdir os fs;
  remove = remove os fs;
  rename = rename os fs;
  stat = stat os fs;
  chmod = chmod os fs;
  chtimes = chtimes os fs;
  chown = chown os fs;
  read_dir = read_dir os fs;
  read_file = read_file os fs;
  chdir = chdir os fs;
  open_path = open_path os fs;
  create = create os fs;
  mkdir_all = mkdir_all os fs;
  remove_all = remove_all os fs;
  truncate = truncate os fs;
}

module _ {World File : Type 0} (fs : OsFs) (os os' : OsPackage World File) where
  -- The operations of osFS with names that start with a slash depend only on what the operating
  -- system does with its root and with paths that go on from it after a slash, as texts: where two
  -- operating systems agree on these, all sixteen operations that take names do the same. The root
  -- is one other than the system's.
  pub confined :
      IsRooted fs → Agree (IsBeneath fs.root) os os' → Agree IsAbsolute (seen os fs) (seen os' fs)
  unfolding open_file mkdir remove rename stat chmod chtimes chown read_dir read_file chdir
      open_path create mkdir_all remove_all truncate
  confined rooted a = record {
    opens = λ p flag perm i. a.opens _ flag perm (beneath p i);
    mkdirs = λ p perm i. a.mkdirs _ perm (beneath p i);
    removes = λ p i. a.removes _ (beneath p i);
    renames = λ p q i j. a.renames _ _ (beneath p i) (beneath q j);
    stats = λ p i. a.stats _ (beneath p i);
    chmods = λ p mode i. a.chmods _ mode (beneath p i);
    chtimes = λ p at m i. a.chtimes _ at m (beneath p i);
    chowns = λ p uid gid i. a.chowns _ uid gid (beneath p i);
    lists = λ p i. a.lists _ (beneath p i);
    reads = λ p i. a.reads _ (beneath p i);
    chdirs = λ p i. a.chdirs _ (beneath p i);
    opens_path = λ p i. a.opens_path _ (beneath p i);
    creates = λ p i. a.creates _ (beneath p i);
    mkdirs_all = λ p perm i. a.mkdirs_all _ perm (beneath p i);
    removes_all = λ p i. a.removes_all _ (beneath p i);
    truncates = λ p size i. a.truncates _ size (beneath p i);
  }
    where
      beneath : (p : String) → IsAbsolute p → IsBeneath fs.root (path fs p)
      beneath = path-IsBeneath fs rooted
