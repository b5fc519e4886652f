-- ===== src/Shard/Remove.antt =====
-- `removeEntry` and `pushRemoveEntry` of src/Shard.cpp on a valid shard.
use kvs_cash_machine.Action.{Action, pure}
use kvs_cash_machine.BloomFilter
use kvs_cash_machine.ByteArray.{ByteArray}
use kvs_cash_machine.Common.{
  ℕ, ◌+◌, ◌%◌, ◌≤◌, ◌<◌, ◌≡◌, ◌≢◌, ◌∙◌, sym, ap, Bool-cases, inl, inr, true, false, none,
  if◌then◌else◌, ltb, le→ltb_false, lt→ltb, arith, refl,
}
use kvs_cash_machine.Disk.{values, index, put_file, put_file_self, put_file_other}
use kvs_cash_machine.Key
use kvs_cash_machine.Key.{Key}
use kvs_cash_machine.Key.Laws.{eq_iff}
use kvs_cash_machine.Outcome.{ok}
use kvs_cash_machine.Probe.Table.{view}
use kvs_cash_machine.Ptr.Laws.{set_value_present_ok}
use kvs_cash_machine.Ptr.{Ptr}
use kvs_cash_machine.Shard.Change.{Change-contents, Change-Holds}
use kvs_cash_machine.Shard.Counter.{set_count, decrement_alive_values_cnt}
use kvs_cash_machine.Shard.Files.{store_table_lem}
use kvs_cash_machine.Shard.Frame.{Framed, Framed-refl, index-Framed, values≢index}
use kvs_cash_machine.Shard.Methods.{remove_by_type, remove_with, remove_entry, push_remove_entry}
use kvs_cash_machine.Shard.Pointers.{assign-Change}
use kvs_cash_machine.Shard.Sound.{
  raw, contents, contents_low, view_empty, raw-lt, entry-cases, type_present, type_deleted,
  type_empty, used-le, value_at_low,
}
use kvs_cash_machine.Shard.Valid.{Holds, load_table_holds}
use kvs_cash_machine.Shard.{State, hash}
use kvs_cash_machine.StorageHashTable
use kvs_cash_machine.StorageHashTable.Bytes.{serialize_to_byte_array}
use kvs_cash_machine.StorageHashTable.Valid.{locate-view}
use kvs_cash_machine.StorageHashTable.{StorageHashTable}

module _ (xxh3 : ByteArray → ℕ → ℕ) (i : ℕ) (s : State) (t : StorageHashTable) (v : ByteArray)
    (key : Key) where
  -- The pointer of the key with its flag cleared; EMPTY_PTR stays as it is.
  unfoldable pub cleared : Ptr
  cleared = record { raw = if ltb (raw t key) 128 then raw t key else raw t key % 128 }

  pub cleared-lt : cleared.raw < 128
  unfolding cleared
  cleared-lt = ground arith

  -- The shard after the key was removed: it is valid, and as a map changes at the key alone, which
  -- has no value any more; the counter is `n` if it had one. The key keeps its index. Other shards'
  -- files are as they were.
  pub record Removed (n : ℕ) (s' : State) (t' : StorageHashTable) : Type 0 where
    pub holds : Holds xxh3 i s' t' v
    pub pointers :
        (q : Key) → view t'.entries q ≡ (if Key.eq key q then cleared else view t.entries q)
    pub reads : (q : Key) → contents t' v q ≡ (if Key.eq key q then none else contents t v q)
    pub used : t'.used_size ≡ t.used_size
    pub count :
        s'.shard.alive_values_cnt ≡ (if ltb (raw t key) 128 then s.shard.alive_values_cnt else n)
    pub framed : Framed i s.disk s'.disk

  module _ (h : Holds xxh3 i s t v) where
    pub cleared_low : raw t key < 128 → cleared ≡ view t.entries key
    unfolding cleared
    cleared_low low = λ j. record { raw = e j }
      where
        e : (if ltb (raw t key) 128 then raw t key else raw t key % 128) ≡ raw t key
        e = rw (lt→ltb (raw t key) 128 low)

    pub cleared_high : 128 ≤ raw t key → cleared ≡ record { raw = raw t key % 128 }
    unfolding cleared
    cleared_high high = rw (le→ltb_false (raw t key) 128 high)

    at_key : (q : Key) → Key.eq key q ≡ true → q ≡ key
    at_key q same = sym ((eq_iff key q).0 same)

    unchanged : (n : ℕ) → raw t key < 128 → Removed n s t
    unchanged n low = record {
      holds = h;
      pointers = λ q. elim (Bool-cases (Key.eq key q)) [
        | inl same ↦ rw same (ap (view t.entries) (at_key q same) ∙ sym (cleared_low low))
        | inr other ↦ rw other
      ];
      reads = λ q. elim (Bool-cases (Key.eq key q)) [
        | inl same ↦ rw same (ap (contents t v) (at_key q same) ∙ contents_low t v key low)
        | inr other ↦ rw other
      ];
      used = refl;
      count = rw (lt→ltb (raw t key) 128 low);
      framed = Framed-refl;
    }

    -- Both methods, whose first step on a present entry sets the counter to `n`.
    module _ (first : Action State (Unit {0})) (n : ℕ)
        (counts : first s ≡ (ok tt, set_count s n)) where
      remove_present :
          128 ≤ raw t key
          → (s' : State) × (t' : StorageHashTable) × (remove_with xxh3 i first key s
              ≡ (ok (record { key = key; ptr = cleared }), s'))
            × Removed n s' t'
      unfolding remove_with remove_by_type
      remove_present high =
          let ne : raw t key ≢ 127 = omega arith in
          let off : Ptr = record { raw = raw t key % 128 } in
          let (r, located, there, c, used) =
            assign-Change xxh3 t v h.sound key off ne (omega arith)
              (omega (arith, h.range key ne, used-le xxh3 t v h.sound)) (omega arith) in
          let t' = StorageHashTable.assign t r off in
          let bytes = serialize_to_byte_array t' in
          let s' : State = record {
            shard = record s.shard { alive_values_cnt = n };
            disk = put_file s.disk (index i) bytes;
          } in
          (
            s',
            t',
            rw (
              h.confirmed key ne,
              load_table_holds xxh3 i s t v h,
              located,
              there,
              type_present xxh3 t v h.sound key high,
              counts,
              set_value_present_ok (view t.entries key) false (raw-lt xxh3 t v h.sound key)
                  (omega arith) (omega arith),
              store_table_lem i s.disk t' h.directory,
              cleared_high high,
            ),
            record {
              holds =
                  Change-Holds xxh3 c i s v h s' v h.directory
                    (put_file_self s.disk (index i) bytes)
                    (put_file_other s.disk (index i) bytes (values i) (λ e. values≢index i (sym e))
                      ∙ h.values_file)
                    (rw used h.blocks) h.filter (h.confirmed key ne) (λ q yes'. yes');
              pointers = λ q. rw (cleared_high high) (c.reads q);
              reads =
                  Change-contents xxh3 c v v none (value_at_low off.raw v (omega arith))
                    (λ q other nq. refl);
              used = used;
              count = rw (le→ltb_false (raw t key) 128 high);
              framed = index-Framed i s.disk bytes;
            },
          )

      remove_empty :
          raw t key ≡ 127
          → remove_with xxh3 i first key s
            ≡ (ok (record { key = key; ptr = view t.entries key }), s)
      unfolding remove_with remove_by_type
      remove_empty e =
          let (r, located, there) = locate-view (hash xxh3) t h.table key in
          elim (Bool-cases (BloomFilter.check_exist xxh3 s.shard.filter key)) [
            | inl maybe ↦ rw (
              maybe,
              load_table_holds xxh3 i s t v h,
              located,
              there,
              type_empty xxh3 t v h.sound key e,
              view_empty t v key e,
            )
            | inr denied ↦ rw (denied, view_empty t v key e)
          ]

      remove_deleted :
          raw t key < 126
          → remove_with xxh3 i first key s
            ≡ (ok (record { key = key; ptr = view t.entries key }), s)
      unfolding remove_with remove_by_type
      remove_deleted low =
          let (r, located, there) = locate-view (hash xxh3) t h.table key in
          rw (
            h.confirmed key (omega arith),
            load_table_holds xxh3 i s t v h,
            located,
            there,
            type_deleted xxh3 t v h.sound key low,
          )

      pub remove_with-Removed :
          (s' : State) × (t' : StorageHashTable) × (remove_with xxh3 i first key s
            ≡ (ok (record { key = key; ptr = cleared }), s'))
          × Removed n s' t'
      remove_with-Removed = elim (entry-cases xxh3 t v h.sound key) [
        | inl (e, type) ↦
            (s, t, rw (cleared_low (omega arith)) (remove_empty e), unchanged n (omega arith))
        | inr (inl (low, type)) ↦
            (s, t, rw (cleared_low (omega arith)) (remove_deleted low), unchanged n (omega arith))
        | inr (inr (high, type)) ↦ remove_present high
      ]

    -- `removeEntry` on a valid shard does not fail, whether the key is there or not: the shard stays
    -- valid, and as a map changes at the key alone, which has no value any more; the counter goes
    -- down, modulo 256, exactly if it had one. The entry returned has the key's pointer, cleared.
    pub remove_entry-Removed :
        (s' : State) × (t' : StorageHashTable) × (remove_entry xxh3 i key s
          ≡ (ok (record { key = key; ptr = cleared }), s'))
        × Removed ((s.shard.alive_values_cnt + 255) % 256) s' t'
    unfolding remove_entry decrement_alive_values_cnt
    remove_entry-Removed =
        remove_with-Removed decrement_alive_values_cnt ((s.shard.alive_values_cnt + 255) % 256) refl

    -- `pushRemoveEntry` on a valid shard does not fail, whether the key is there or not: the shard
    -- stays valid, and as a map changes at the key alone, which has no value any more; the counter
    -- is as it was. The entry returned has the key's pointer, cleared.
    pub push_remove_entry-Removed :
        (s' : State) × (t' : StorageHashTable) × (push_remove_entry xxh3 i key s
          ≡ (ok (record { key = key; ptr = cleared }), s'))
        × Removed s.shard.alive_values_cnt s' t'
    unfolding push_remove_entry
    push_remove_entry-Removed = remove_with-Removed (pure tt) s.shard.alive_values_cnt refl
