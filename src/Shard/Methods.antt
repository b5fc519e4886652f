-- ===== src/Shard/Methods.antt =====
-- The methods of src/Shard.cpp that look a key up.
use kvs_cash_machine.Action.{Action, ◌>>=◌, ◌>>◌, lift, pure}
use kvs_cash_machine.BloomFilter
use kvs_cash_machine.ByteArray.{ByteArray}
use kvs_cash_machine.Common.{ℕ, true, false, not, Option, none, some, if◌then◌else◌}
use kvs_cash_machine.Disk.{Disk, values, index}
use kvs_cash_machine.Entry.{Entry}
use kvs_cash_machine.Key.{Key}
use kvs_cash_machine.Outcome.{ok, err, logic_error}
use kvs_cash_machine.Ptr
use kvs_cash_machine.Ptr.{Ptr, PtrType, present, deleted, empty_ptr, nonexistent}
use kvs_cash_machine.Shard.{State, on_disk, hash}
use kvs_cash_machine.Shard.Counter.{increment_alive_values_cnt, decrement_alive_values_cnt}
use kvs_cash_machine.Shard.Directly.{read_value_directly, write_value_directly}
use kvs_cash_machine.Storage
use kvs_cash_machine.StorageHashTable
use kvs_cash_machine.StorageHashTable.{StorageHashTable}
use kvs_cash_machine.StorageHashTable.Bytes.{serialize_to_byte_array, of_byte_array}
use kvs_cash_machine.Value.{Value}

abbrev entry : Key → Ptr → Entry
entry key ptr = record { key = key; ptr = ptr }

-- `Entry{key}`
abbrev pub no_entry : Key → Entry
no_entry key = record { key = key; ptr = Ptr.empty }

-- `StorageHashTable{storage::readFile(getStorageHashTableFilePath(shardIndex))}`
unfoldable pub load_table : ℕ → Action Disk StorageHashTable
load_table shard_index = do
  bytes ← Storage.read_file (index shard_index)
  lift (of_byte_array bytes)

-- `storage::writeFile(getStorageHashTableFilePath(shardIndex), ….serializeToByteArray())`
unfoldable pub store_table : ℕ → StorageHashTable → Action Disk (Unit {0})
store_table shard_index table =
    Storage.write_file (index shard_index) (serialize_to_byte_array table)

module _ (xxh3 : ByteArray → ℕ → ℕ) (shard_index : ℕ) where
  -- The `switch` of `readValue`.
  unfoldable pub read_by_type : Key → Ptr → PtrType → Action Disk (Entry × Option Value)
  read_by_type key ptr empty_ptr = pure (no_entry key, none)
  read_by_type key ptr deleted = pure (entry key ptr, none)
  read_by_type key ptr present = do
    value ← read_value_directly shard_index ptr
    pure (entry key ptr, some value)
  read_by_type key ptr nonexistent = lift (err logic_error)

  -- `Shard::readValue`
  unfoldable pub read_value : Key → Action State (Entry × Option Value)
  unfolding load_table
  read_value key s =
      let found : Action Disk (Entry × Option Value) = (do
        table ← load_table shard_index
        ptr ← lift (StorageHashTable.get (hash xxh3) table key)
        read_by_type key ptr (Ptr.get_type ptr)) in
      if not (BloomFilter.check_exist xxh3 s.shard.filter key)
      then (ok (no_entry key, none), s)
      else on_disk found s

  -- `filter.add(key)`
  abbrev pub add_to_filter : Key → Action State (Unit {0})
  add_to_filter key s = (
    ok tt,
    record s { shard = record s.shard { filter = BloomFilter.add xxh3 s.shard.filter key } },
  )

  -- The cases of the `switch` of `writeValue`; `r` is what the reference `ptr` refers to.
  unfoldable pub write_by_type :
      Key → Value → StorageHashTable → Option ℕ → Ptr → PtrType → Action State Entry
  unfolding store_table
  write_by_type key value table r ptr present = do
    on_disk (write_value_directly shard_index ptr value)
    pure (entry key ptr)
  write_by_type key value table r ptr deleted = do
    on_disk (write_value_directly shard_index ptr value)
    increment_alive_values_cnt
    ptr' ← lift (Ptr.set_value_present ptr true)
    on_disk (store_table shard_index (StorageHashTable.assign table r ptr'))
    pure (entry key ptr')
  write_by_type key value table r ptr empty_ptr = do
    storage ← on_disk (Storage.open_file (values shard_index))
    (offset, storage') ← on_disk (Storage.append storage value.bytes)
    on_disk (Storage.close storage')
    increment_alive_values_cnt
    add_to_filter key
    new_ptr ← lift (Ptr.of_offset offset true)
    table' ← lift (StorageHashTable.put (hash xxh3) table (entry key new_ptr))
    on_disk (store_table shard_index table')
    pure (entry key new_ptr)
  write_by_type key value table r ptr nonexistent = lift (err logic_error)

  -- `Shard::writeValue`
  unfoldable pub write_value : Key → Value → Action State Entry
  unfolding load_table
  write_value key value = do
    table ← on_disk (load_table shard_index)
    r ← lift (StorageHashTable.locate (hash xxh3) table key)
    let ptr = StorageHashTable.deref table r
    write_by_type key value table r ptr (Ptr.get_type ptr)

  -- The cases of the `switch`es of `removeEntry` and of `pushRemoveEntry`, which differ in what
  -- they do first to a present entry.
  unfoldable pub remove_by_type :
      Action State (Unit {0})
      → Key
      → StorageHashTable
      → Option ℕ
      → Ptr
      → PtrType
      → Action State Entry
  unfolding store_table
  remove_by_type first key table r ptr deleted = pure (entry key ptr)
  remove_by_type first key table r ptr empty_ptr = pure (no_entry key)
  remove_by_type first key table r ptr present = do
    first
    ptr' ← lift (Ptr.set_value_present ptr false)
    on_disk (store_table shard_index (StorageHashTable.assign table r ptr'))
    pure (entry key ptr')
  remove_by_type first key table r ptr nonexistent = lift (err logic_error)

  -- What `removeEntry` and `pushRemoveEntry` share.
  unfoldable pub remove_with : Action State (Unit {0}) → Key → Action State Entry
  unfolding load_table
  remove_with first key s =
      let found : Action State Entry = (do
        table ← on_disk (load_table shard_index)
        r ← lift (StorageHashTable.locate (hash xxh3) table key)
        let ptr = StorageHashTable.deref table r
        remove_by_type first key table r ptr (Ptr.get_type ptr)) in
      if not (BloomFilter.check_exist xxh3 s.shard.filter key)
      then (ok (no_entry key), s)
      else found s

  -- `Shard::removeEntry`
  unfoldable pub remove_entry : Key → Action State Entry
  remove_entry = remove_with decrement_alive_values_cnt

  -- `Shard::pushRemoveEntry`
  unfoldable pub push_remove_entry : Key → Action State Entry
  push_remove_entry = remove_with (pure tt)
