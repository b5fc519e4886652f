-- ===== src/Shard/Valid.antt =====
-- The invariant of a shard of src/Shard.cpp with its files.
use kvs_cash_machine.BloomFilter
use kvs_cash_machine.ByteArray.{ByteArray}
use kvs_cash_machine.Common.{
  ltb, length, ◌/◌, ◌%◌, ◌*◌, ℕ, ◌≡◌, ◌≢◌, ◌∙◌, sym, true, false, some, arith,
}
use mathlib.Core.Bool.{false≢true}
use native.Mathlib.Decide.{ℕ_discrete}
use kvs_cash_machine.Disk.{values, index}
use kvs_cash_machine.Key.{Key}
use kvs_cash_machine.Outcome.{ok}
use kvs_cash_machine.Probe.Table.{view}
use kvs_cash_machine.Ptr
use kvs_cash_machine.Ptr.{Ptr, present, deleted, empty_ptr}
use kvs_cash_machine.Constants.{value_size}
use kvs_cash_machine.Shard.Counter.{set_count, is_rebuild_required}
use kvs_cash_machine.Shard.Files.{load_table_lem}
use kvs_cash_machine.Shard.Methods.{load_table}
use kvs_cash_machine.Shard.Sound.{Sound, raw, used-le}
use kvs_cash_machine.Shard.{State}
use kvs_cash_machine.StorageHashTable.Bytes.{serialize_to_byte_array}
use kvs_cash_machine.StorageHashTable.{StorageHashTable}

module _ (xxh3 : ByteArray → ℕ → ℕ) where
  -- Shard `i` and its files: the index file holds the table `t`, the values file is `v`, they agree,
  -- and the filter confirms every key of the table.
  pub record Holds (i : ℕ) (s : State) (t : StorageHashTable) (v : ByteArray) : Type 0 where
    pub directory : s.disk.has_directory i ≡ true
    pub index_file : s.disk.file (index i) ≡ some (serialize_to_byte_array t)
    pub values_file : s.disk.file (values i) ≡ some v
    pub sound : Sound xxh3 t v
    pub open sound use *
    pub filter : BloomFilter.Laws.IsValid xxh3 s.shard.filter
    pub confirmed : (k : Key) → raw t k ≢ 127 → BloomFilter.check_exist xxh3 s.shard.filter k ≡ true

  module _ (i : ℕ) (s : State) (t : StorageHashTable) (v : ByteArray) (h : Holds i s t v) where
    pub load_table_holds : load_table i s.disk ≡ (ok t, s.disk)
    load_table_holds =
        load_table_lem i s.disk t h.index_file (omega (arith, used-le xxh3 t v h.sound))
          (omega (arith, h.sizes))

    -- A key that the filter denies is not in the table.
    pub denied-empty :
        (k : Key)
        → BloomFilter.check_exist xxh3 s.shard.filter k ≡ false
        → view t.entries k ≡ Ptr.empty
    denied-empty k no' = elim (ℕ_discrete (raw t k) 127) [
      | yes e ↦ ground arith
      | no ne ↦ absurd (false≢true (sym no' ∙ h.confirmed k ne))
    ]

    -- `isRebuildRequired` on a valid shard tells whether more than half of its entries have no value
    -- by the counter, and changes nothing.
    pub is_rebuild_required_lem :
        is_rebuild_required i s ≡ (ok (ltb (2 * s.shard.alive_values_cnt) t.used_size), s)
    unfolding is_rebuild_required
    is_rebuild_required_lem =
        let few = used-le xxh3 t v h.sound in
        let number : length v / value_size % 256 ≡ t.used_size = omega (arith, h.blocks) in
        rw (h.values_file, is_rebuild_required, number)

    -- The counter is no part of the invariant.
    pub Holds-count : (n : ℕ) → Holds i (set_count s n) t v
    Holds-count n = record {
      directory = h.directory;
      index_file = h.index_file;
      values_file = h.values_file;
      sound = h.sound;
      filter = h.filter;
      confirmed = h.confirmed;
    }
