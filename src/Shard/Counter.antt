-- ===== src/Shard/Counter.antt =====
-- The counter of values of src/Shard.cpp, a byte, and the test for a rebuild.
use kvs_cash_machine.Action.{Action}
use kvs_cash_machine.Common.{ℕ, ◌+◌, ◌*◌, ◌/◌, ◌%◌, Bool, ltb, none, some, length}
use kvs_cash_machine.Constants.{value_size}
use kvs_cash_machine.Disk.{values}
use kvs_cash_machine.Outcome.{ok, err, kvs_exception, failed_to_get_values_file_size}
use kvs_cash_machine.Shard.{State}

abbrev pub set_count : State → ℕ → State
set_count s n = record s { shard = record s.shard { alive_values_cnt = n } }

-- `Shard::incrementAliveValuesCnt`
unfoldable pub increment_alive_values_cnt : Action State (Unit {0})
increment_alive_values_cnt s = (ok tt, set_count s ((s.shard.alive_values_cnt + 1) % 256))

-- `Shard::decrementAliveValuesCnt`
unfoldable pub decrement_alive_values_cnt : Action State (Unit {0})
decrement_alive_values_cnt s = (ok tt, set_count s ((s.shard.alive_values_cnt + 255) % 256))

-- `Shard::isRebuildRequired`: more than twice as many values in the file as are alive. The number
-- of values is converted to a byte.
unfoldable pub is_rebuild_required : ℕ → Action State Bool
is_rebuild_required shard_index s = elim (s.disk.file (values shard_index)) [
  | none ↦ (err (kvs_exception failed_to_get_values_file_size), s)
  | some bytes ↦ (ok (ltb (2 * s.shard.alive_values_cnt) (length bytes / value_size % 256)), s)
]
