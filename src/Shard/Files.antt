-- ===== src/Shard/Files.antt =====
-- The files of a shard as the methods of src/Shard.cpp read and write them.
use kvs_cash_machine.ByteArray.{ByteArray}
use kvs_cash_machine.Common.{ℕ, ◌+◌, ◌≤◌, ◌<◌, ◌≡◌, true, some, length, part, ◌++◌}
use kvs_cash_machine.Constants.{value_size, size_t_mod, vector_max_size}
use kvs_cash_machine.Disk.{Disk, values, index, directory, put_file}
use kvs_cash_machine.Outcome.{ok}
use kvs_cash_machine.Ptr
use kvs_cash_machine.Ptr.{Ptr}
use kvs_cash_machine.Shard.Directly.{read_value_directly, write_value_directly}
use kvs_cash_machine.Shard.Methods.{load_table, store_table}
use kvs_cash_machine.Storage.Laws.{read_lem}
use kvs_cash_machine.Storage.{open_file, write, append, close, overwrite, read_file, write_file}
use kvs_cash_machine.StorageHashTable.Bytes.RoundTrip.{of_byte_array-serialize}
use kvs_cash_machine.StorageHashTable.Bytes.{serialize_to_byte_array}
use kvs_cash_machine.StorageHashTable.{StorageHashTable}
use kvs_cash_machine.Value.{Value}

module _ (i : ℕ) (d : Disk) where
  pub load_table_lem :
      (t : StorageHashTable)
      → d.file (index i) ≡ some (serialize_to_byte_array t)
      → t.used_size < size_t_mod
      → length t.entries ≤ vector_max_size
      → load_table i d ≡ (ok t, d)
  unfolding load_table read_file
  load_table_lem t holds few small = rw (holds, read_file, of_byte_array-serialize t few small)

  pub store_table_lem :
      (t : StorageHashTable)
      → d.has_directory i ≡ true
      → store_table i t d ≡ (ok tt, put_file d (index i) (serialize_to_byte_array t))
  unfolding store_table write_file directory
  store_table_lem t there = rw there

  module _ (v : ByteArray) (holds : d.file (values i) ≡ some v) (p : Ptr) where
    pub read_value_directly_lem :
        Ptr.get_offset p + value_size ≤ length v
        → read_value_directly i p d
          ≡ (ok (record { bytes = part (Ptr.get_offset p) value_size v }), d)
    unfolding read_value_directly open_file close
    read_value_directly_lem inside = rw (
      holds,
      open_file,
      read_lem (record { path = values i; file_size = length v }) d v (Ptr.get_offset p) value_size
          holds inside,
    )

    pub write_value_directly_lem :
        (value : Value)
        → write_value_directly i p value d
          ≡ (ok tt, put_file d (values i) (overwrite v (Ptr.get_offset p) value.bytes))
    unfolding write_value_directly open_file write close
    write_value_directly_lem value = rw (holds, open_file) (rw (holds, write))

    -- `writeValue` appends a value to the file.
    pub open_file_lem :
        open_file (values i) d ≡ (ok (record { path = values i; file_size = length v }), d)
    unfolding open_file
    open_file_lem = rw (holds, open_file)

    pub append_value :
        (bytes : ByteArray)
        → append (record { path = values i; file_size = length v }) bytes d ≡ (
          ok (length v, record { path = values i; file_size = length v + length bytes }),
          put_file d (values i) (v ++ bytes),
        )
    unfolding append
    append_value bytes = rw (holds, append)
