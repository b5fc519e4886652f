-- ===== src/ShardBuilder/Forgotten.antt =====
-- `ShardBuilder::rebuildShard` of src/ShardBuilder.cpp, where an assertion fails.
use kvs_cash_machine.ByteArray.{ByteArray}
use kvs_cash_machine.CacheMap
use kvs_cash_machine.CacheMap.{CacheMap}
use kvs_cash_machine.Disk.{Disk}
use kvs_cash_machine.Entry.{Entry}
use kvs_cash_machine.Key.{Key}
use kvs_cash_machine.Ptr
use kvs_cash_machine.Ptr.{Ptr, PtrType}
use kvs_cash_machine.Shard.Sound.{Sound}
use kvs_cash_machine.ShardBuilder.RebuildShard
use kvs_cash_machine.StorageHashTable.{StorageHashTable}
