-- ===== src/ShardBuilder/Rename.antt =====
-- `std::filesystem::rename`, as `rebuildShard` calls it.
use kvs_cash_machine.ByteArray.{ByteArray}
use kvs_cash_machine.Common.{◌≡◌, ◌≢◌, refl, none, some, if◌then◌else◌}
use kvs_cash_machine.Disk.{FilePath, Disk, path_eq, path_eq_iff, path_eq_ne}
use kvs_cash_machine.Outcome.{ok}
use kvs_cash_machine.ShardBuilder.{rename}

-- The disk after a file with these bytes was renamed.
abbrev pub renamed : Disk → FilePath → FilePath → ByteArray → Disk
renamed d from to bytes = record d {
  file = λ p. if path_eq to p then some bytes else if path_eq from p then none else d.file p;
}

module _ (d : Disk) (from to : FilePath) (bytes : ByteArray) where
  pub rename_lem : d.file from ≡ some bytes → rename from to d ≡ (ok tt, renamed d from to bytes)
  unfolding rename
  rename_lem there = rw (there, rename)

  pub renamed_to : (renamed d from to bytes).file to ≡ some bytes
  renamed_to = rw ((path_eq_iff to to).1 refl)

  pub renamed_other :
      (q : FilePath) → to ≢ q → from ≢ q → (renamed d from to bytes).file q ≡ d.file q
  renamed_other q net nef = rw (path_eq_ne to q net, path_eq_ne from q nef)
