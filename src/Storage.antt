-- ===== src/Storage.antt =====
-- include/Storage.h and src/Storage.cpp: whole files, and the parts of an open file. The disk is
-- explicit; a stream's buffer is not, since every stream is closed before its file is read anew.
pub mod Laws
use kvs_cash_machine.Action.{Action}
use kvs_cash_machine.ByteArray.{ByteArray}
use kvs_cash_machine.Common.{
  ℕ, ◌+◌, ◌-◌, ◌||◌, ◌==◌, leb, Bool, Option, none, some, List, [], ◌∷◌, ◌++◌, if◌then◌else◌,
  length, take, drop, replicate,
}
use Prim.Native.Nat.{max}
use kvs_cash_machine.Outcome.{
  Result, ok, err, kvs_exception, filesystem_error, storage_open_failed, storage_read_failed,
  storage_write_failed,
}
use kvs_cash_machine.Disk.{FilePath, directory, Disk, put_file}

-- `readFile`
unfoldable pub read_file : FilePath → Action Disk ByteArray
read_file path d = elim (d.file path) [
  | none ↦ (err (kvs_exception storage_open_failed), d)
  | some bytes ↦ (ok bytes, d)
]

-- `writeFile`
unfoldable pub write_file : FilePath → ByteArray → Action Disk (Unit {0})
write_file path bytes d =
    if d.has_directory (directory path)
    then (ok tt, put_file d path bytes)
    else (err (kvs_exception storage_open_failed), d)

-- `class Storage`; `path` stands for its open stream.
pub record Storage : Type 0 where
  pub path : FilePath
  pub file_size : ℕ

-- `Storage::Storage`. The size is asked for before the body looks whether the stream is open, and
-- that throws the standard library's own exception if there is no file.
unfoldable pub open_file : FilePath → Action Disk Storage
open_file path d = elim (d.file path) [
  | none ↦ (err filesystem_error, d)
  | some bytes ↦ (ok (record { path = path; file_size = length bytes }), d)
]

-- `Storage::read`. A read past the end of the file fails.
unfoldable pub read : Storage → ℕ → ℕ → Action Disk ByteArray
read s offset n d = elim (d.file s.path) [
  | none ↦ (err (kvs_exception storage_read_failed), d)
  | some bytes ↦
      if n == 0 || leb (offset + n) (length bytes)
      then (ok (take n (drop offset bytes)), d)
      else (err (kvs_exception storage_read_failed), d)
]

-- What a write at an offset makes of the contents: a gap behind the end is filled with zeros.
unfoldable pub overwrite : ByteArray → ℕ → ByteArray → ByteArray
overwrite old offset [] = old
overwrite old offset (b ∷ bytes) =
    take offset old
    ++ (replicate (offset - length old) 0
        ++ ((b ∷ bytes) ++ drop (offset + length (b ∷ bytes)) old))

-- `Storage::write`
unfoldable pub write : Storage → ℕ → ByteArray → Action Disk Storage
write s offset bytes d = elim (d.file s.path) [
  | none ↦ (err (kvs_exception storage_write_failed), d)
  | some old ↦ (
    ok (record s { file_size = max s.file_size (offset + length bytes) }),
    put_file d s.path (overwrite old offset bytes),
  )
]

-- `Storage::append`
unfoldable pub append : Storage → ByteArray → Action Disk (ℕ × Storage)
append s bytes d = elim (d.file s.path) [
  | none ↦ (err (kvs_exception storage_write_failed), d)
  | some old ↦ (
    ok (s.file_size, record s { file_size = s.file_size + length bytes }),
    put_file d s.path (old ++ bytes),
  )
]

-- `Storage::close`. What was written is on the disk of the model at once.
unfoldable pub close : Storage → Action Disk (Unit {0})
close s d = (ok tt, d)
