-- ===== src/ShardBuilder.antt =====
-- include/ShardBuilder.h and src/ShardBuilder.cpp: a new shard, and the rebuild of a shard without
-- its deleted values.
pub mod Create
pub mod Copy
pub mod Step
pub mod Loop
pub mod Rename
pub mod Swap
pub mod RebuildShard
pub mod Forgotten
use kvs_cash_machine.Action.{Action, ◌>>=◌, ◌>>◌, lift, pure}
use kvs_cash_machine.ByteArray.{ByteArray, zeros}
use kvs_cash_machine.CacheMap
use kvs_cash_machine.CacheMap.{CacheMap}
use kvs_cash_machine.Common.{
  ℕ, Bool, true, false, not, ◌==◌, List, [], ◌∷◌, ◌++◌, none, some, if◌then◌else◌,
}
use kvs_cash_machine.Constants.{storage_hash_table_initial_size}
use kvs_cash_machine.Disk.{FilePath, values, index, rebuilt, Disk, path_eq}
use kvs_cash_machine.Entry.{Entry}
use kvs_cash_machine.Outcome
use kvs_cash_machine.Outcome.{
  Result, ok, err, kvs_exception, failed_to_create_shard_directory,
  shard_rebuilder_failed_to_replace_old_files,
}
use kvs_cash_machine.Ptr
use kvs_cash_machine.Ptr.{Ptr, PtrType, present, deleted, empty_ptr, nonexistent}
use kvs_cash_machine.Shard
use kvs_cash_machine.Shard.{Shard, State, on_disk, hash}
use kvs_cash_machine.Shard.Counter.{is_rebuild_required}
use kvs_cash_machine.Shard.Directly.{read_value_directly}
use kvs_cash_machine.Shard.Methods.{load_table, store_table}
use kvs_cash_machine.Storage
use kvs_cash_machine.Storage.{Storage}
use kvs_cash_machine.StorageHashTable
use kvs_cash_machine.StorageHashTable.{StorageHashTable}
use kvs_cash_machine.StorageHashTable.Bytes.{serialize_to_byte_array}

-- `std::filesystem::create_directories`, as `createShard` calls it
unfoldable pub create_directory : ℕ → Action Disk (Unit {0})
create_directory i d =
    if d.denied i
    then (err (kvs_exception failed_to_create_shard_directory), d)
    else (ok tt, record d { has_directory = λ j. if i == j then true else d.has_directory j })

-- `ShardBuilder::createShard`; the last two arguments are the seeds that the filter draws.
unfoldable pub create_shard : ℕ → ℕ → ℕ → Action Disk Shard
create_shard shard_index seed₁ seed₂ = do
  create_directory shard_index
  Storage.write_file (values shard_index) (zeros 0)
  store_table shard_index (StorageHashTable.with_size storage_hash_table_initial_size)
  pure (Shard.new seed₁ seed₂)

-- `std::filesystem::rename`, which replaces the file that has the new name
unfoldable pub rename : FilePath → FilePath → Action Disk (Unit {0})
rename from to d = elim (d.file from) [
  | none ↦ (err (kvs_exception shard_rebuilder_failed_to_replace_old_files), d)
  | some bytes ↦ (
    ok tt,
    record d {
      file = λ p. if path_eq to p then some bytes else if path_eq from p then none else d.file p;
    },
  )
]

-- What `rebuildShard` returns: the shard that replaces the old one, and the entries of the cache
-- map that have to be overwritten.
abbrev pub RebuiltShard : Type 0
RebuiltShard = Shard × List Entry

-- The variables of the loop of `rebuildShard`.
pub record Rebuild : Type 0 where
  pub storage : Storage
  pub table : StorageHashTable
  pub updated : List Entry

module _ (xxh3 : ByteArray → ℕ → ℕ) (shard_index : ℕ) where
  -- A present entry: its value is copied, and the new table gets its new pointer.
  unfoldable pub copy_entry : Entry → Rebuild → Action Disk (Ptr × Rebuild)
  copy_entry e r = do
    value ← read_value_directly shard_index e.ptr
    (new_offset, storage) ← Storage.append r.storage value.bytes
    new_ptr ← lift (Ptr.of_offset new_offset true)
    table ← lift (StorageHashTable.put (hash xxh3) r.table (record { key = e.key; ptr = new_ptr }))
    pure (new_ptr, record r { storage = storage; table = table })

  abbrev is_present : PtrType → Bool
  is_present present = true
  is_present deleted = false
  is_present empty_ptr = false
  is_present nonexistent = false

  abbrev is_nonexistent : PtrType → Bool
  is_nonexistent present = false
  is_nonexistent deleted = false
  is_nonexistent empty_ptr = false
  is_nonexistent nonexistent = true

  abbrev update : Entry → Ptr → Rebuild → Rebuild
  update e ptr r = record r { updated = r.updated ++ record { key = e.key; ptr = ptr } ∷ [] }

  -- The body of the loop of `rebuildShard`, by the type of the cache map's pointer.
  unfoldable pub rebuild_by_type : Entry → Rebuild → PtrType → Action Disk Rebuild
  unfolding copy_entry
  rebuild_by_type e r deleted = do ptr ← lift (Ptr.of_type nonexistent); pure (update e ptr r)
  rebuild_by_type e r nonexistent = do
    lift (Outcome.assert (is_nonexistent (Ptr.get_type e.ptr)))
    pure r
  rebuild_by_type e r empty_ptr =
      let copy : Action Disk Rebuild = (do (ptr, r') ← copy_entry e r; pure r') in
      if is_present (Ptr.get_type e.ptr) then copy else pure r
  rebuild_by_type e r present = do
    lift (Outcome.assert (is_present (Ptr.get_type e.ptr)))
    (new_ptr, r') ← copy_entry e r
    pure (update e new_ptr r')

  -- The loop of `rebuildShard`.
  unfoldable pub rebuild_entries : CacheMap → List Entry → Rebuild → Action Disk Rebuild
  unfolding rebuild_by_type
  rebuild_entries cache_map [] r = pure r
  rebuild_entries cache_map (e ∷ es) r = do
    ptr ← lift (CacheMap.get (hash xxh3) cache_map e.key)
    r' ← rebuild_by_type e r (Ptr.get_type ptr)
    rebuild_entries cache_map es r'

  -- `ShardBuilder::rebuildShard`; the seeds are those that the new shard's filter draws.
  unfoldable pub rebuild_shard : CacheMap → ℕ → ℕ → Action State RebuiltShard
  unfolding rebuild_entries
  rebuild_shard cache_map seed₁ seed₂ = do
    required ← is_rebuild_required shard_index
    lift (Outcome.assert required)
    table ← on_disk (load_table shard_index)
    let new_table = StorageHashTable.with_size storage_hash_table_initial_size
    on_disk (Storage.write_file (rebuilt (values shard_index)) (zeros 0))
    storage ← on_disk (Storage.open_file (rebuilt (values shard_index)))
    let start : Rebuild = record { storage = storage; table = new_table; updated = [] }
    r ← on_disk (rebuild_entries cache_map (StorageHashTable.get_entries table) start)
    on_disk (Storage.close r.storage)
    on_disk (Storage.write_file (rebuilt (index shard_index)) (serialize_to_byte_array r.table))
    on_disk (rename (rebuilt (values shard_index)) (values shard_index))
    on_disk (rename (rebuilt (index shard_index)) (index shard_index))
    let new_shard = Shard.of_entries xxh3 seed₁ seed₂ (StorageHashTable.get_entries r.table)
    (λ s.
          let (again, s') =
            is_rebuild_required shard_index (record { shard = new_shard; disk = s.disk }) in
          (again, record s { disk = s'.disk }))
        >>= λ again. lift (Outcome.assert (not again)) >> pure (new_shard, r.updated)
