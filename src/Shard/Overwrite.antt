-- ===== src/Shard/Overwrite.antt =====
-- A write over a value that is there, by `writeValue` and `writeValueDirectly` of src/Shard.cpp.
use kvs_cash_machine.ByteArray.{ByteArray}
use kvs_cash_machine.Common.{
  ℕ, ◌+◌, ◌*◌, ◌%◌, ◌≤◌, ◌<◌, ◌≡◌, ◌≢◌, ◌∙◌, sym, ap, some, if◌then◌else◌, ltb, ◌==◌, length, arith,
  refl, le→ltb_false, ==_false, le→ltb_false, ==_false,
}
use kvs_cash_machine.Constants.{value_size}
use kvs_cash_machine.Disk.{values, index, put_file, put_file_self, put_file_other}
use kvs_cash_machine.Key
use kvs_cash_machine.Key.{Key}
use kvs_cash_machine.Outcome.{ok}
use kvs_cash_machine.Probe.Table.{view}
use kvs_cash_machine.Ptr.Laws.{get_offset_lem}
use kvs_cash_machine.Ptr.{Ptr}
use kvs_cash_machine.Shard.Blocks.{
  block, HasBlocks, overwrite-HasBlocks, block-overwrite_self, block-overwrite_ne,
}
use kvs_cash_machine.Shard.Change.{Change-contents, Change-Holds}
use kvs_cash_machine.Shard.Files.{write_value_directly_lem}
use kvs_cash_machine.Shard.Frame.{Framed, values-Framed, values≢index}
use kvs_cash_machine.Shard.Methods.{write_value, write_by_type}
use kvs_cash_machine.Shard.Pointers.{same-Change}
use kvs_cash_machine.Shard.Sound.{raw, value_at, value_at_high, contents, raw-lt, type_present}
use kvs_cash_machine.Shard.Valid.{Holds, load_table_holds}
use kvs_cash_machine.Shard.Directly.{write_value_directly}
use kvs_cash_machine.Shard.{State, hash, on_disk}
use kvs_cash_machine.Storage.{overwrite}
use kvs_cash_machine.StorageHashTable.Valid.{locate-view}
use kvs_cash_machine.StorageHashTable.{StorageHashTable}
use kvs_cash_machine.Value.{Value}

module _ (xxh3 : ByteArray → ℕ → ℕ) (i : ℕ) (s : State) (t : StorageHashTable) (v : ByteArray)
    (key : Key) where
  -- The shard after a value was written under the key, with the pointer `p`: it is valid, and as a
  -- map it changes at the key alone, as its pointers do; a key without an entry gets one, and the
  -- counter goes up if the key had no value. Other shards' files are as they were.
  pub record Written (value : Value) (p : Ptr) (s' : State) (t' : StorageHashTable) (v' : ByteArray)
      : Type 0 where
    pub holds : Holds xxh3 i s' t' v'
    pub present : 128 ≤ p.raw
    pub pointers : (q : Key) → view t'.entries q ≡ (if Key.eq key q then p else view t.entries q)
    pub reads : (q : Key) → contents t' v' q ≡ (if Key.eq key q then some value else contents t v q)
    pub used : t'.used_size ≡ t.used_size + (if raw t key == 127 then 1 else 0)
    pub count : s'.shard.alive_values_cnt ≡ (
        if ltb (raw t key) 128
        then (s.shard.alive_values_cnt + 1) % 256
        else s.shard.alive_values_cnt)
    pub framed : Framed i s.disk s'.disk

  module _ (h : Holds xxh3 i s t v) (value : Value) (whole : length value.bytes ≡ value_size) where
    -- The value is written to the block of the key's pointer.
    unfoldable pub written : ByteArray
    written = overwrite v (raw t key % 128 * value_size) value.bytes

    module _ (ne : raw t key ≢ 127) where
      pub write_there :
          (p : Ptr)
          → p.raw < 256
          → p.raw % 128 ≡ raw t key % 128
          → write_value_directly i p value s.disk ≡ (ok tt, put_file s.disk (values i) written)
      unfolding written
      write_there p small same =
          write_value_directly_lem i s.disk v h.values_file p value
          ∙ ap (λ o. (ok tt, put_file s.disk (values i) (overwrite v o value.bytes)))
              (get_offset_lem p small ∙ ap (λ n. n * value_size) same)

      pub block-written : block (raw t key % 128) written ≡ value.bytes
      unfolding written
      block-written =
          block-overwrite_self t.used_size (raw t key % 128) v value.bytes h.blocks
            (h.range key ne).1 whole

      pub blocks_kept :
          (q : Key)
          → key ≢ q
          → raw t q ≢ 127
          → block (raw t q % 128) written ≡ block (raw t q % 128) v
      unfolding written
      blocks_kept q other nq =
          block-overwrite_ne t.used_size (raw t key % 128) v value.bytes h.blocks (h.range key ne).1
            whole (raw t q % 128) (h.range q nq).1 (λ e. other (h.apart key q ne nq (sym e)))

      pub written-HasBlocks : HasBlocks t.used_size written
      unfolding written
      written-HasBlocks =
          overwrite-HasBlocks t.used_size (raw t key % 128) v value.bytes h.blocks
            (h.range key ne).1 whole

    now : raw t key ≢ 127 → 128 ≤ raw t key → value_at (raw t key) written ≡ some value
    now ne high = value_at_high (raw t key) written value high (block-written ne)

    written_state : State
    written_state = record s { disk = put_file s.disk (values i) written }

    present-Written : 128 ≤ raw t key → Written value (view t.entries key) written_state t written
    unfolding written_state
    present-Written high =
        let ne : raw t key ≢ 127 = omega arith in
        let c = same-Change xxh3 t v h.sound key ne in
        record {
          holds =
              Change-Holds xxh3 c i s v h written_state written h.directory
                (put_file_other s.disk (values i) written (index i) (values≢index i) ∙ h.index_file)
                (put_file_self s.disk (values i) written) (written-HasBlocks ne) h.filter
                (h.confirmed key ne) (λ q yes'. yes');
          present = high;
          pointers = c.reads;
          reads = Change-contents xxh3 c v written (some value) (now ne high) (blocks_kept ne);
          used = rw (==_false ne) (omega arith);
          count = rw (le→ltb_false (raw t key) 128 high);
          framed = values-Framed i s.disk written;
        }

    -- `writeValueDirectly` of a value of VALUE_SIZE bytes on a valid shard, through a pointer of one
    -- byte with the index of a value that is present in the table, whatever the pointer's flag, does
    -- not fail: the shard stays valid, and as a map changes at the key of that value alone.
    pub write_value_directly-Written :
        (p : Ptr)
        → p.raw < 256
        → p.raw % 128 ≡ raw t key % 128
        → 128 ≤ raw t key
        → (s' : State) × (v' : ByteArray) × (on_disk (write_value_directly i p value) s
            ≡ (ok tt, s'))
          × Written value (view t.entries key) s' t v'
    unfolding written_state
    write_value_directly-Written p small same high =
        (written_state, written, rw (write_there (omega arith) p small same), present-Written high)

    pub write_present :
        128 ≤ raw t key
        → (p : Ptr) × (s' : State) × (t' : StorageHashTable) × (v' : ByteArray) × (write_value xxh3
              i key value s
            ≡ (ok (record { key = key; ptr = p }), s'))
          × Written value p s' t' v'
    unfolding write_value write_by_type written_state
    write_present high =
        let ne : raw t key ≢ 127 = omega arith in
        let (r, located, there) = locate-view (hash xxh3) t h.table key in
        (
          view t.entries key,
          written_state,
          t,
          written,
          rw (
            load_table_holds xxh3 i s t v h,
            located,
            there,
            type_present xxh3 t v h.sound key high,
            write_there ne (view t.entries key) (raw-lt xxh3 t v h.sound key) refl,
          ),
          present-Written high,
        )
