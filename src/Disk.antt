-- ===== src/Disk.antt =====
-- The files that the program names, and the disk that holds them.
use mathlib.Core.Path.{subst}
use kvs_cash_machine.ByteArray.{ByteArray}
use kvs_cash_machine.Common.{
  ℕ, ◌==◌, Bool, true, false, ◌≡◌, ◌≢◌, ◌↔◌, Option, some, if◌then◌else◌, Bool-cases, inl, inr,
  ==_iff, ap, arith,
}

-- The paths that src/Shard.cpp and src/ShardBuilder.cpp build: `<number>/values` and
-- `<number>/index` below the storage directory, and a path with ":rebuilt" behind it. Different
-- paths are different strings, since a decimal numeral has no slash in it.
pub data FilePath : Type 0 where
  values : ℕ → FilePath
  index : ℕ → FilePath
  rebuilt : FilePath → FilePath

-- The shard whose directory holds the file.
unfoldable pub directory : FilePath → ℕ
directory (values i) = i
directory (index i) = i
directory (rebuilt p) = directory p

unfoldable pub path_eq : FilePath → FilePath → Bool
path_eq (values i) (values j) = i == j
path_eq (index i) (index j) = i == j
path_eq (rebuilt p) (rebuilt q) = path_eq p q
path_eq p q = false

-- The files with their contents, the shards' directories that exist, and those that the system
-- does not let the program create.
pub record Disk : Type 0 where
  pub file : FilePath → Option ByteArray
  pub has_directory : ℕ → Bool
  pub denied : ℕ → Bool

abbrev pub put_file : Disk → FilePath → ByteArray → Disk
put_file d path bytes = record d { file = λ p. if path_eq path p then some bytes else d.file p }

path_eq_refl : (p : FilePath) → path_eq p p ≡ true
unfolding path_eq
path_eq_refl (values i) = ground arith
path_eq_refl (index i) = ground arith
path_eq_refl (rebuilt p) = path_eq_refl p

path_eq_sound : (p q : FilePath) → path_eq p q ≡ true → p ≡ q
unfolding path_eq
path_eq_sound (values i) (values j) h = ap values ((==_iff i j).0 h)
path_eq_sound (index i) (index j) h = ap index ((==_iff i j).0 h)
path_eq_sound (rebuilt p) (rebuilt q) h = ap rebuilt (path_eq_sound p q h)
path_eq_sound p q h = cc

pub path_eq_iff : (p q : FilePath) → (path_eq p q ≡ true) ↔ (p ≡ q)
path_eq_iff p q = (path_eq_sound p q, λ e. subst (λ x. path_eq p x ≡ true) e (path_eq_refl p))

pub path_eq_ne : (p q : FilePath) → p ≢ q → path_eq p q ≡ false
path_eq_ne p q ne = elim (Bool-cases (path_eq p q)) [
  | inl same ↦ absurd (ne ((path_eq_iff p q).0 same))
  | inr other ↦ other
]

-- A file that was put on the disk is there, and the other files are as they were.
pub put_file_self :
    (d : Disk) (p : FilePath) (bytes : ByteArray) → (put_file d p bytes).file p ≡ some bytes
put_file_self d p bytes = rw (path_eq_refl p)

pub put_file_other :
    (d : Disk) (p : FilePath) (bytes : ByteArray) (q : FilePath)
    → p ≢ q
    → (put_file d p bytes).file q ≡ d.file q
put_file_other d p bytes q ne = rw (path_eq_ne p q ne)
