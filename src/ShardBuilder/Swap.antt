-- ===== src/ShardBuilder/Swap.antt =====
-- How `rebuildShard` of src/ShardBuilder.cpp puts the rebuilt files in place of the old ones.
use kvs_cash_machine.ByteArray.{ByteArray}
use kvs_cash_machine.Common.{ℕ, ◌≡◌, ◌∙◌, sym, ap, refl, some}
use kvs_cash_machine.Disk.{
  FilePath, Disk, values, index, rebuilt, directory, put_file, put_file_self, put_file_other,
}
use kvs_cash_machine.Shard.Frame.{Framed, Framed-trans, put-Framed}
use kvs_cash_machine.ShardBuilder.Rename.{renamed, renamed_to, renamed_other}

pub rename-Framed :
    (i : ℕ) (d : Disk) (from to : FilePath) (bytes : ByteArray)
    → directory from ≡ i
    → directory to ≡ i
    → Framed i d (renamed d from to bytes)
rename-Framed i d from to bytes at_from at_to = record {
  files = λ q ne.
      renamed_other d from to bytes q (λ e. ne (ap directory (sym e) ∙ at_to))
        (λ e. ne (ap directory (sym e) ∙ at_from));
  directories = λ j. refl;
}

module _ (i : ℕ) (d : Disk) (v b : ByteArray) where
  abbrev pub with_index : Disk
  with_index = put_file d (rebuilt (index i)) b

  abbrev pub with_values : Disk
  with_values = renamed with_index (rebuilt (values i)) (values i) v

  -- The disk after both rebuilt files took the places of the old ones.
  abbrev pub swapped : Disk
  swapped = renamed with_values (rebuilt (index i)) (index i) b

  pub swapped-Framed : Framed i d swapped
  unfolding directory
  swapped-Framed = Framed-trans (put-Framed d (rebuilt (index i)) b refl) (
      Framed-trans (rename-Framed i with_index (rebuilt (values i)) (values i) v refl refl)
        (rename-Framed i with_values (rebuilt (index i)) (index i) b refl refl))

  pub swapped-index : swapped.file (index i) ≡ some b
  swapped-index = renamed_to with_values (rebuilt (index i)) (index i) b

  pub swapped-values : swapped.file (values i) ≡ some v
  swapped-values =
      renamed_other with_values (rebuilt (index i)) (index i) b (values i) (λ e. cc) (λ e. cc)
      ∙ renamed_to with_index (rebuilt (values i)) (values i) v

  module _ (there : d.file (rebuilt (values i)) ≡ some v) where
    pub values_there : with_index.file (rebuilt (values i)) ≡ some v
    values_there = put_file_other d (rebuilt (index i)) b (rebuilt (values i)) (λ e. cc) ∙ there

    pub index_there : with_values.file (rebuilt (index i)) ≡ some b
    index_there =
        renamed_other with_index (rebuilt (values i)) (values i) v (rebuilt (index i)) (λ e. cc)
          (λ e. cc)
        ∙ put_file_self d (rebuilt (index i)) b
