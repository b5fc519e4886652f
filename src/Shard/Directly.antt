-- ===== src/Shard/Directly.antt =====
-- Values by their pointers, in src/Shard.cpp.
use kvs_cash_machine.Action.{Action, ◌>>=◌, ◌>>◌, pure}
use kvs_cash_machine.Common.{ℕ}
use kvs_cash_machine.Constants.{value_size}
use kvs_cash_machine.Disk.{Disk, values}
use kvs_cash_machine.Ptr
use kvs_cash_machine.Ptr.{Ptr}
use kvs_cash_machine.Storage
use kvs_cash_machine.Value.{Value}

-- `Shard::readValueDirectly`
unfoldable pub read_value_directly : ℕ → Ptr → Action Disk Value
read_value_directly shard_index ptr = do
  storage ← Storage.open_file (values shard_index)
  bytes ← Storage.read storage (Ptr.get_offset ptr) value_size
  Storage.close storage
  pure (record { bytes = bytes })

-- `Shard::writeValueDirectly`
unfoldable pub write_value_directly : ℕ → Ptr → Value → Action Disk (Unit {0})
write_value_directly shard_index ptr value = do
  storage ← Storage.open_file (values shard_index)
  storage' ← Storage.write storage (Ptr.get_offset ptr) value.bytes
  Storage.close storage'
