-- ===== src/Shard/Frame.antt =====
-- What the methods of one shard leave alone: the files of the other shards.
use kvs_cash_machine.ByteArray.{ByteArray}
use kvs_cash_machine.Common.{ℕ, ◌≡◌, ◌≢◌, ◌∙◌, sym, ap, refl, some}
use kvs_cash_machine.Disk.{
  FilePath, Disk, values, index, directory, put_file, put_file_self, put_file_other,
}

-- The two disks differ in the files of shard `i` at most.
pub record Framed (i : ℕ) (d d' : Disk) : Type 0 where
  pub files : (path : FilePath) → directory path ≢ i → d'.file path ≡ d.file path
  pub directories : (j : ℕ) → d'.has_directory j ≡ d.has_directory j

module _ {i : ℕ} where
  pub Framed-refl : {d : Disk} → Framed i d d
  Framed-refl = record { files = λ p ne. refl; directories = λ j. refl }

  pub Framed-trans : {d e f : Disk} → Framed i d e → Framed i e f → Framed i d f
  Framed-trans a b = record {
    files = λ p ne. b.files p ne ∙ a.files p ne;
    directories = λ j. b.directories j ∙ a.directories j;
  }

  pub put-Framed :
      (d : Disk) (path : FilePath) (bytes : ByteArray)
      → directory path ≡ i
      → Framed i d (put_file d path bytes)
  put-Framed d path bytes here = record {
    files = λ q ne. put_file_other d path bytes q (λ e. ne (ap directory (sym e) ∙ here));
    directories = λ j. refl;
  }

pub values-Framed : (i : ℕ) (d : Disk) (v : ByteArray) → Framed i d (put_file d (values i) v)
unfolding directory
values-Framed i d v = put-Framed d (values i) v refl

pub index-Framed : (i : ℕ) (d : Disk) (b : ByteArray) → Framed i d (put_file d (index i) b)
unfolding directory
index-Framed i d b = put-Framed d (index i) b refl

pub values≢index : (i : ℕ) → values i ≢ index i
values≢index i e = cc

module _ (i : ℕ) (d : Disk) (v b : ByteArray) where
  -- The disk after the values and then the table of the shard were written.
  abbrev pub put_both : Disk
  put_both = put_file (put_file d (values i) v) (index i) b

  pub put_both-values : put_both.file (values i) ≡ some v
  put_both-values =
      put_file_other (put_file d (values i) v) (index i) b (values i) (λ e. values≢index i (sym e))
      ∙ put_file_self d (values i) v

  pub put_both-Framed : Framed i d put_both
  put_both-Framed = Framed-trans (values-Framed i d v) (index-Framed i (put_file d (values i) v) b)
