-- ===== src/ShardBuilder/RebuildShard.antt =====
-- `rebuildShard` of src/ShardBuilder.cpp on a valid shard.
use kvs_cash_machine.BloomFilter
use kvs_cash_machine.BloomFilter.Laws.{new_lem}
use kvs_cash_machine.ByteArray.{ByteArray, zeros}
use kvs_cash_machine.CacheMap
use kvs_cash_machine.CacheMap.{CacheMap}
use kvs_cash_machine.Common.{
  ℕ, ◌*◌, ◌≤◌, ◌<◌, ◌≡◌, ◌≢◌, inl, inr, ◌∙◌, sym, ap, refl, Bool-cases, true, false, none, some,
  if◌then◌else◌, ltb, lt→ltb, le→ltb_false, List, [], length, arith, ==_true, ==_false,
}
use mathlib.Core.Path.{subst}
use native.Mathlib.Decide.{ℕ_discrete}
use kvs_cash_machine.Disk.{
  Disk, values, index, rebuilt, directory, put_file, put_file_self, put_file_other,
}
use kvs_cash_machine.Entry.{Entry}
use kvs_cash_machine.Key.{Key}
use kvs_cash_machine.Outcome.{ok}
use kvs_cash_machine.Ptr.{Ptr}
use kvs_cash_machine.Shard.Filter.{add_all-IsValid, add_all_confirms}
use kvs_cash_machine.Shard.Frame.{Framed, Framed-trans, put-Framed}
use kvs_cash_machine.Shard.Sound.{raw, contents, contents_low, used-le}
use kvs_cash_machine.Shard.Valid.{Holds, load_table_holds, is_rebuild_required_lem}
use kvs_cash_machine.Shard
use kvs_cash_machine.Shard.{Shard, State, hash}
use kvs_cash_machine.ShardBuilder.Create.{start, start-raw, start-Sound}
use kvs_cash_machine.ShardBuilder.Loop.{
  rebuilt≢values, marks, Rebuilt, Ready, rebuild_entries-Rebuilt,
}
use kvs_cash_machine.ShardBuilder.Rename.{rename_lem}
use kvs_cash_machine.ShardBuilder.Swap.{
  swapped, swapped-Framed, swapped-index, swapped-values, values_there, index_there, with_index,
  with_values,
}
use kvs_cash_machine.ShardBuilder.Step.{Agrees, kept}
use kvs_cash_machine.ShardBuilder.{Rebuild, rebuild_shard}
use kvs_cash_machine.Storage
use kvs_cash_machine.StorageHashTable
use kvs_cash_machine.StorageHashTable.Bytes.{serialize_to_byte_array}
use kvs_cash_machine.StorageHashTable.Entries.{listed, get_entries_lem}
use kvs_cash_machine.StorageHashTable.{StorageHashTable, get_entries}

module _ (xxh3 : ByteArray → ℕ → ℕ) (i : ℕ) (m : CacheMap)
    (cache : CacheMap.Valid.IsValid (hash xxh3) m) (s : State) (t : StorageHashTable)
    (v : ByteArray) where
  -- After a rebuild the shard is valid with no dead values: it has the values of the keys that are
  -- kept, under new pointers, and a counter that is right. Other shards' files are as they were.
  pub record Refreshed (shard : Shard) (updated : List Entry) (d : Disk) (t' : StorageHashTable)
      (v' : ByteArray) : Type 0 where
    pub holds : Holds xxh3 i (record { shard = shard; disk = d }) t' v'
    pub reads : (q : Key) → contents t' v' q ≡ (if kept m t q then contents t v q else none)
    pub copied : (q : Key) → raw t q ≢ 127 → kept m t q ≡ true → 128 ≤ raw t' q
    pub dropped : (q : Key) → raw t q ≢ 127 → kept m t q ≡ false → raw t' q ≡ 127
    pub absent : (q : Key) → raw t q ≡ 127 → raw t' q ≡ 127
    pub count : shard.alive_values_cnt ≡ t'.used_size
    pub fewer : t'.used_size ≤ t.used_size
    pub updates : updated ≡ marks m (get_entries t) t'
    pub framed : Framed i s.disk d

  module _ (h : Holds xxh3 i s t v) where
    abbrev pub entries : List Entry
    entries = get_entries t

    pub listed-raw : (k : Key) → listed entries k ≡ raw t k
    listed-raw k = ap Ptr.raw ((get_entries_lem (hash xxh3) t h.table.probed).0 k)

    abbrev pub emptied : Disk
    emptied = put_file s.disk (rebuilt (values i)) []

    abbrev pub first : Rebuild
    first = record {
      storage = record { path = rebuilt (values i); file_size = 0 };
      table = start;
      updated = [];
    }

    counted : length entries ≡ t.used_size
    counted = (get_entries_lem (hash xxh3) t h.table.probed).2 ∙ sym h.table.counted

    few : length entries ≤ 45
    few = omega (arith, counted, used-le xxh3 t v h.sound)

    pub first-Ready : Ready xxh3 i m cache t v h.sound entries first emptied []
    unfolding StorageHashTable.with_size
    first-Ready =
        let (view-entries, distinct, number) = get_entries_lem (hash xxh3) t h.table.probed in
        record {
          distinct = distinct;
          running = record {
            sound = start-Sound xxh3;
            opened = record { holds = put_file_self s.disk (rebuilt (values i)) []; size = refl };
            path = refl;
          };
          there =
              put_file_other s.disk (rebuilt (values i)) [] (values i) (rebuilt≢values i)
              ∙ h.values_file;
          from = λ k _. view-entries k;
          new = λ k _. start-raw xxh3 k;
          room = omega (arith, few);
        }

    -- The loop's result is put in place.
    module _ (seed₁ seed₂ : ℕ) (r : Rebuild) (d : Disk) (w : ByteArray)
        (built : Rebuilt xxh3 i m cache t v h.sound entries first emptied [] r d w) where
      abbrev shard : Shard
      shard = Shard.of_entries xxh3 seed₁ seed₂ (get_entries r.table)

      abbrev bytes : ByteArray
      bytes = serialize_to_byte_array r.table

      abbrev final : Disk
      final = swapped i d w bytes

      to_rebuilt : Framed i s.disk d
      unfolding directory
      to_rebuilt = Framed-trans (put-Framed s.disk (rebuilt (values i)) [] refl) (record {
        files = λ q ne. built.only.files q (λ e. ne (ap directory (sym e)));
        directories = built.only.directories;
      })

      final-Framed : Framed i s.disk final
      final-Framed = Framed-trans to_rebuilt (swapped-Framed i d w bytes)

      rebuilt_values : d.file (rebuilt (values i)) ≡ some w
      rebuilt_values = subst (λ p. d.file p ≡ some w) built.running.path built.running.opened.holds

      number : length (get_entries r.table) ≡ r.table.used_size
      number =
          (get_entries_lem (hash xxh3) r.table built.running.sound.table.probed).2
          ∙ sym built.running.sound.table.counted

      final-Holds : Holds xxh3 i (record { shard = shard; disk = final }) r.table w
      unfolding Shard.of_entries
      final-Holds =
          let (valid, _) = new_lem xxh3 seed₁ seed₂ in
          let (view-entries, _, _) =
            get_entries_lem (hash xxh3) r.table built.running.sound.table.probed in
          record {
            directory = final-Framed.directories i ∙ h.directory;
            index_file = swapped-index i d w bytes;
            values_file = swapped-values i d w bytes;
            sound = built.running.sound;
            filter = add_all-IsValid xxh3 (get_entries r.table) (BloomFilter.new seed₁ seed₂) valid;
            confirmed = λ k ne.
                add_all_confirms xxh3 (get_entries r.table) (BloomFilter.new seed₁ seed₂) k valid
                  (λ z. ne (sym (ap Ptr.raw (view-entries k)) ∙ z));
          }

      final-reads : (q : Key) → contents r.table w q ≡ (if kept m t q then contents t v q else none)
      final-reads q = elim (ℕ_discrete (listed entries q) 127) [
        | yes e ↦
            built.reads q
            ∙ rw (==_true e, contents_low start [] q (omega (arith, start-raw xxh3 q)))
                (elim (Bool-cases (kept m t q)) [
                  | inl k ↦ rw (k, contents_low t v q (omega (arith, listed-raw q, e))) refl
                  | inr no' ↦ rw no' refl
                ])
        | no ne ↦ built.reads q ∙ rw (==_false ne) refl
      ]

      final-Refreshed : Refreshed shard r.updated final r.table w
      unfolding StorageHashTable.with_size Shard.of_entries
      final-Refreshed = record {
        holds = final-Holds;
        reads = final-reads;
        copied = λ q ne. built.copied q (λ z. ne (sym (listed-raw q) ∙ z));
        dropped = λ q ne. built.dropped q (λ z. ne (sym (listed-raw q) ∙ z));
        absent = λ q e. ap Ptr.raw (built.pointers q (listed-raw q ∙ e)) ∙ start-raw xxh3 q;
        count = omega (arith, number, used-le xxh3 r.table w built.running.sound);
        fewer = omega (arith, built.used, counted);
        updates = built.updated;
        framed = final-Framed;
      }

    pub write_first : Storage.write_file (rebuilt (values i)) (zeros 0) s.disk ≡ (ok tt, emptied)
    unfolding Storage.write_file zeros directory
    write_first = rw h.directory

    pub open_first : Storage.open_file (rebuilt (values i)) emptied ≡ (ok first.storage, emptied)
    unfolding Storage.open_file
    open_first = rw (put_file_self s.disk (rebuilt (values i)) [], Storage.open_file)

    write_index :
        (d : Disk) (b : ByteArray)
        → d.has_directory i ≡ true
        → Storage.write_file (rebuilt (index i)) b d ≡ (ok tt, put_file d (rebuilt (index i)) b)
    unfolding Storage.write_file directory
    write_index d b there = rw there

    -- `rebuildShard`, if it is required, of a valid shard and a valid cache map succeeds with all its
    -- assertions, where the cache map has no key of the table as NONEXISTENT, and has one as present
    -- only if the table does. The new shard is valid, has no dead values, and as a map has the values
    -- that the cache map says are present, and those that it does not know, and no other. The entries
    -- returned are those keys of the cache map, with their new pointers, or NONEXISTENT if they were
    -- removed. The other shards' files are as they were.
    pub rebuild_shard-Refreshed :
        (agrees : (k : Key) → raw t k ≢ 127 → Agrees m t k) (seed₁ seed₂ : ℕ)
        → 2 * s.shard.alive_values_cnt < t.used_size
        → (shard : Shard) × (updated : List Entry) × (d : Disk) × (t' : StorageHashTable)
          × (v' : ByteArray) × (rebuild_shard xxh3 i m seed₁ seed₂ s
              ≡ (ok (shard, updated), record { shard = s.shard; disk = d }))
          × Refreshed shard updated d t' v'
    unfolding rebuild_shard Storage.close Shard.of_entries
    rebuild_shard-Refreshed agrees seed₁ seed₂ needed =
        let (r, d, w, ran, built) =
          rebuild_entries-Rebuilt xxh3 i m cache t v h.sound agrees entries first emptied []
            first-Ready in
        let result = final-Refreshed seed₁ seed₂ r d w built in
        let framed = to_rebuilt seed₁ seed₂ r d w built in
        let there = rebuilt_values seed₁ seed₂ r d w built in
        let b = serialize_to_byte_array r.table in
        let enough : (c : ℕ) → c ≡ r.table.used_size → ltb (2 * c) r.table.used_size ≡ false =
          (λ c e. le→ltb_false (2 * c) r.table.used_size (omega (arith, e))) in
        let shard' = Shard.of_entries xxh3 seed₁ seed₂ (get_entries r.table) in
        (
          shard',
          r.updated,
          swapped i d w b,
          r.table,
          w,
          rw (
            is_rebuild_required_lem xxh3 i s t v h,
            lt→ltb (2 * s.shard.alive_values_cnt) t.used_size needed,
            load_table_holds xxh3 i s t v h,
            write_first,
            open_first,
            ran,
            write_index d b (framed.directories i ∙ h.directory),
            rename_lem (with_index i d w b) (rebuilt (values i)) (values i) w
                (values_there i d w b there),
            rename_lem (with_values i d w b) (rebuilt (index i)) (index i) b
                (index_there i d w b there),
            is_rebuild_required_lem xxh3 i (record { shard = shard'; disk = swapped i d w b })
                r.table w result.holds,
            enough shard'.alive_values_cnt result.count,
          ),
          result,
        )
