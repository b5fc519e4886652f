-- ===== src/Shard/Write.antt =====
-- `writeValue` of src/Shard.cpp on a valid shard.
use kvs_cash_machine.BloomFilter
use kvs_cash_machine.ByteArray.{ByteArray}
use kvs_cash_machine.Common.{
  ℕ, ◌+◌, ◌%◌, ◌<◌, ◌≡◌, ◌≢◌, ◌⊎◌, ◌∙◌, ap, inl, inr, true, some, length, arith, refl, ◌++◌, lt→ltb,
  ==_false, ==_true,
}
use kvs_cash_machine.BloomFilter.Laws.{add_lem, add_keep}
use kvs_cash_machine.Constants.{value_size}
use kvs_cash_machine.Disk.{values, index, put_file, put_file_self, put_file_other}
use kvs_cash_machine.Key.{Key}
use kvs_cash_machine.Outcome.{ok, err, terminate}
use kvs_cash_machine.Probe.Table.{view}
use kvs_cash_machine.Ptr.Laws.{set_value_present_ok, of_offset_ok}
use kvs_cash_machine.Ptr.{Ptr}
use kvs_cash_machine.Shard.Blocks.{block, append-HasBlocks, block-append_self, block-append_lt}
use kvs_cash_machine.Shard.Change.{Change-contents, Change-Holds}
use kvs_cash_machine.Shard.Counter.{increment_alive_values_cnt}
use kvs_cash_machine.Shard.Files.{store_table_lem, open_file_lem, append_value}
use kvs_cash_machine.Shard.Frame.{values≢index, put_both, put_both-values, put_both-Framed}
use kvs_cash_machine.Shard.Methods.{write_value, write_by_type}
use kvs_cash_machine.Shard.Overwrite.{
  Written, written, write_there, block-written, blocks_kept, written-HasBlocks, write_present,
}
use kvs_cash_machine.Shard.Pointers.{assign-Change, put-full, put-Change}
use kvs_cash_machine.Shard.Sound.{raw, value_at_high, raw-lt, entry-cases, type_deleted, type_empty}
use kvs_cash_machine.Shard.Valid.{Holds, load_table_holds}
use kvs_cash_machine.Shard.{State, hash}
use kvs_cash_machine.Storage
use kvs_cash_machine.StorageHashTable
use kvs_cash_machine.StorageHashTable.Bytes.{serialize_to_byte_array}
use kvs_cash_machine.StorageHashTable.Valid.{locate-view}
use kvs_cash_machine.StorageHashTable.{StorageHashTable}
use kvs_cash_machine.Value.{Value}

module _ (xxh3 : ByteArray → ℕ → ℕ) (i : ℕ) (s : State) (t : StorageHashTable) (v : ByteArray)
    (key : Key) (h : Holds xxh3 i s t v) (value : Value)
    (whole : length value.bytes ≡ value_size) where
  revived : Ptr
  revived = record { raw = raw t key % 128 + 128 }

  write_deleted :
      raw t key < 126
      → (p : Ptr) × (s' : State) × (t' : StorageHashTable) × (v' : ByteArray) × (write_value xxh3 i
            key value s
          ≡ (ok (record { key = key; ptr = p }), s'))
        × Written xxh3 i s t v key value p s' t' v'
  unfolding write_value write_by_type increment_alive_values_cnt revived
  write_deleted low =
      let ne : raw t key ≢ 127 = omega arith in
      let (r, located, there, c, used) =
        assign-Change xxh3 t v h.sound key revived ne (omega arith) (omega arith) (omega arith) in
      let t' = StorageHashTable.assign t r revived in
      let bytes = serialize_to_byte_array t' in
      let count = (s.shard.alive_values_cnt + 1) % 256 in
      let s' : State = record {
        shard = record s.shard { alive_values_cnt = count };
        disk = put_both i s.disk (written xxh3 i s t v key h value whole) bytes;
      } in
      (
        revived,
        s',
        t',
        (written xxh3 i s t v key h value whole),
        rw (
          load_table_holds xxh3 i s t v h,
          located,
          there,
          type_deleted xxh3 t v h.sound key low,
          write_there xxh3 i s t v key h value whole ne (view t.entries key)
              (raw-lt xxh3 t v h.sound key) refl,
          set_value_present_ok (view t.entries key) true (raw-lt xxh3 t v h.sound key) (omega arith)
              (omega arith),
          store_table_lem i (put_file s.disk (values i) (written xxh3 i s t v key h value whole)) t'
              h.directory,
        ),
        record {
          holds =
              Change-Holds xxh3 c i s v h s' (written xxh3 i s t v key h value whole) h.directory
                (put_file_self (put_file s.disk (values i) (written xxh3 i s t v key h value whole))
                  (index i) bytes)
                (put_both-values i s.disk (written xxh3 i s t v key h value whole) bytes)
                (rw used (written-HasBlocks xxh3 i s t v key h value whole ne)) h.filter
                (h.confirmed key ne) (λ q yes'. yes');
          present = omega arith;
          pointers = c.reads;
          reads =
              Change-contents xxh3 c v (written xxh3 i s t v key h value whole) (some value)
                (value_at_high revived.raw (written xxh3 i s t v key h value whole) value
                  (omega arith)
                  (ap (λ j. block j (written xxh3 i s t v key h value whole)) (omega arith)
                    ∙ block-written xxh3 i s t v key h value whole ne))
                (blocks_kept xxh3 i s t v key h value whole ne);
          used = rw (==_false ne) (omega (arith, used));
          count = rw (lt→ltb (raw t key) 128 (omega arith));
          framed = put_both-Framed i s.disk (written xxh3 i s t v key h value whole) bytes;
        },
      )

  fresh : Ptr
  fresh = record { raw = t.used_size + 128 }

  appended : ByteArray
  appended = v ++ value.bytes

  write_empty :
      raw t key ≡ 127
      → t.used_size < 45
      → (p : Ptr) × (s' : State) × (t' : StorageHashTable) × (v' : ByteArray) × (write_value xxh3 i
            key value s
          ≡ (ok (record { key = key; ptr = p }), s'))
        × Written xxh3 i s t v key value p s' t' v'
  unfolding write_value write_by_type increment_alive_values_cnt fresh appended Storage.close
  write_empty e room =
      let (r, located, there) = locate-view (hash xxh3) t h.table key in
      let (t', put, c, used) = put-Change xxh3 t v h.sound key e room in
      let bytes = serialize_to_byte_array t' in
      let count = (s.shard.alive_values_cnt + 1) % 256 in
      let (still, new) = add_lem xxh3 s.shard.filter key h.filter in
      let s' : State = record {
        shard = record {
          alive_values_cnt = count;
          filter = BloomFilter.add xxh3 s.shard.filter key;
        };
        disk = put_both i s.disk appended bytes;
      } in
      (
        fresh,
        s',
        t',
        appended,
        rw (
          load_table_holds xxh3 i s t v h,
          located,
          there,
          type_empty xxh3 t v h.sound key e,
          open_file_lem i s.disk v h.values_file fresh,
          append_value i s.disk v h.values_file fresh value.bytes,
          h.blocks,
          of_offset_ok t.used_size true (omega arith),
          put,
          store_table_lem i (put_file s.disk (values i) appended) t' h.directory,
        ),
        record {
          holds =
              Change-Holds xxh3 c i s v h s' appended h.directory
                (put_file_self (put_file s.disk (values i) appended) (index i) bytes)
                (put_both-values i s.disk appended bytes)
                (rw used (append-HasBlocks t.used_size v value.bytes h.blocks whole)) still new
                (λ q. add_keep xxh3 s.shard.filter key q);
          present = omega arith;
          pointers = c.reads;
          reads =
              Change-contents xxh3 c v appended (some value)
                (value_at_high fresh.raw appended value (omega arith) (
                  ap (λ j. block j appended) (omega arith)
                  ∙ block-append_self t.used_size v value.bytes h.blocks whole))
                (λ q other nq.
                  block-append_lt t.used_size v value.bytes h.blocks whole (raw t q % 128)
                    (h.range q nq).1);
          used = rw (==_true e) (omega (arith, used));
          count = rw (lt→ltb (raw t key) 128 (omega arith));
          framed = put_both-Framed i s.disk appended bytes;
        },
      )

  -- `writeValue` of a value of VALUE_SIZE bytes on a valid shard succeeds if the key has an entry or the table
  -- has less than 45 of them: the shard stays valid, and as a map changes at the key alone, to
  -- the value; the entry returned has the key's new pointer.
  pub write_value-Written :
      (raw t key ≢ 127) ⊎ (t.used_size < 45)
      → (p : Ptr) × (s' : State) × (t' : StorageHashTable) × (v' : ByteArray) × (write_value xxh3 i
            key value s
          ≡ (ok (record { key = key; ptr = p }), s'))
        × Written xxh3 i s t v key value p s' t' v'
  write_value-Written room = elim (entry-cases xxh3 t v h.sound key) [
    | inl (e, type) ↦ write_empty e (omega arith)
    | inr (inl (low, type)) ↦ write_deleted low
    | inr (inr (high, type)) ↦ write_present xxh3 i s t v key h value whole high
  ]

  -- `writeValue` of a value of VALUE_SIZE bytes under a new key, on a valid shard with 45 entries,
  -- ends the program. The value has been appended to the values file by then, the counter has gone up
  -- by one, modulo 256, and the filter has the key; the index file is as it was.
  pub write_value-terminate :
      raw t key ≡ 127
      → t.used_size ≡ 45
      → (s' : State) × (write_value xxh3 i key value s ≡ (err terminate, s'))
        × (s'.disk.file (values i) ≡ some (v ++ value.bytes))
        × (s'.disk.file (index i) ≡ s.disk.file (index i))
        × (s'.shard.alive_values_cnt ≡ (s.shard.alive_values_cnt + 1) % 256)
        × (BloomFilter.check_exist xxh3 s'.shard.filter key ≡ true)
  unfolding write_value write_by_type increment_alive_values_cnt fresh appended Storage.close
  write_value-terminate e full =
      let (r, located, there) = locate-view (hash xxh3) t h.table key in
      let s' : State = record {
        shard = record {
          alive_values_cnt = (s.shard.alive_values_cnt + 1) % 256;
          filter = BloomFilter.add xxh3 s.shard.filter key;
        };
        disk = put_file s.disk (values i) appended;
      } in
      (
        s',
        rw (
          load_table_holds xxh3 i s t v h,
          located,
          there,
          type_empty xxh3 t v h.sound key e,
          open_file_lem i s.disk v h.values_file fresh,
          append_value i s.disk v h.values_file fresh value.bytes,
          h.blocks,
          of_offset_ok t.used_size true (omega arith),
          put-full xxh3 t v h.sound key e full fresh (omega arith),
        ),
        put_file_self s.disk (values i) appended,
        put_file_other s.disk (values i) appended (index i) (values≢index i),
        refl,
        (add_lem xxh3 s.shard.filter key h.filter).1,
      )
