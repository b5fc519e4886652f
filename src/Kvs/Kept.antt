-- ===== src/Kvs/Kept.antt =====
-- When a store of src/KVS.cpp has the same values as another but for one key.
use kvs_cash_machine.ByteArray.{ByteArray}
use kvs_cash_machine.CacheMap
use kvs_cash_machine.CacheMap.{CacheMap}
use kvs_cash_machine.Common.{ℕ, ◌+◌, ◌<◌, ◌≡◌, ◌≢◌, ◌∙◌, sym, ap, false, Option, length, arith}
use kvs_cash_machine.Constants.{shard_number}
use kvs_cash_machine.Key
use kvs_cash_machine.Key.{Key}
use kvs_cash_machine.Key.Laws.{by_key}
use kvs_cash_machine.Kvs.{Kvs, shard_at}
use kvs_cash_machine.Kvs.Counter.{alive_number, alive-stored}
use kvs_cash_machine.Kvs.Valid.{state_at, alive, Coherent, lookup, Represents}
use kvs_cash_machine.Ptr.{Ptr}
use kvs_cash_machine.Shard.{hash, get_shard_index}
use kvs_cash_machine.Shard.Sound.{raw}
use kvs_cash_machine.Shard.Valid.{Holds}
use kvs_cash_machine.ShardBuilder.Step.{cached}
use kvs_cash_machine.StorageHashTable.{StorageHashTable, get_entries}
use kvs_cash_machine.StorageHashTable.Entries.{get_entries_lem}
use kvs_cash_machine.StorageHashTable.Number.{one_if, number_of_change}
use kvs_cash_machine.Value.{Value}

module _ (xxh3 : ByteArray → ℕ → ℕ) (f : Key → Option Value) (s : Kvs) (r : Represents xxh3 f s)
    (now : Kvs) (tables : ℕ → StorageHashTable) (files : ℕ → ByteArray) where
  abbrev m : CacheMap
  m = s.cache_map

  abbrev m' : CacheMap
  m' = now.cache_map

  -- A key is as it was before: the pointers that stand for its value may have moved between the cache
  -- map and the table.
  pub record Kept (q : Key) : Type 0 where
    pub stored : (j : ℕ) → j < shard_number → raw (tables j) q ≢ 127 → raw (r.tables j) q ≢ 127
    pub coherent : Coherent (cached m' q) (raw (tables (get_shard_index xxh3 q)) q)
    pub reads :
        lookup m' (tables (get_shard_index xxh3 q)) (files (get_shard_index xxh3 q)) q
        ≡ lookup m (r.tables (get_shard_index xxh3 q)) (r.files (get_shard_index xxh3 q)) q
    pub counted : (j : ℕ) → j < shard_number → alive m' (tables j) q ≡ alive m (r.tables j) q

  module _ (f' : Key → Option Value) where
    -- A key has this value now.
    pub record Given (k : Key) : Type 0 where
      pub own : (j : ℕ) → j < shard_number → raw (tables j) k ≢ 127 → get_shard_index xxh3 k ≡ j
      pub coherent : Coherent (cached m' k) (raw (tables (get_shard_index xxh3 k)) k)
      pub reads :
          f' k ≡ lookup m' (tables (get_shard_index xxh3 k)) (files (get_shard_index xxh3 k)) k
      pub counted :
          (j : ℕ)
          → j < shard_number
          → (shard_at now j).alive_values_cnt + one_if (alive m (r.tables j) k)
            ≡ (shard_at s j).alive_values_cnt + one_if (alive m' (tables j) k)

    module _ (key : Key) (cache : CacheMap.Valid.IsValid (hash xxh3) m')
        (number : length now.shards ≡ shard_number)
        (holds : (j : ℕ) → j < shard_number → Holds xxh3 j (state_at now j) (tables j) (files j))
        (given : Given key) (kept : (q : Key) → Key.eq key q ≡ false → Kept q)
        (same : (q : Key) → Key.eq key q ≡ false → f' q ≡ f q) where
      pub kept-counts :
          (j : ℕ)
          → j < shard_number
          → (shard_at now j).alive_values_cnt ≡ alive_number m' (tables j)
      kept-counts j lt =
          let (view, distinct, _) =
            get_entries_lem (hash xxh3) (r.tables j) (r.valid.holds j lt).sound.table.probed in
          let (view', distinct', _) =
            get_entries_lem (hash xxh3) (tables j) (holds j lt).sound.table.probed in
          let change =
            number_of_change (alive m (r.tables j)) (alive m' (tables j)) key
              (get_entries (r.tables j)) (get_entries (tables j)) distinct distinct'
              (λ q other. (kept q other).counted j lt)
              (λ q yes' z. alive-stored m (r.tables j) q yes' (sym (ap Ptr.raw (view q)) ∙ z))
              (λ q yes' z. alive-stored m' (tables j) q yes' (sym (ap Ptr.raw (view' q)) ∙ z)) in
          omega (arith, change, r.valid.counts j lt, given.counted j lt)

      -- The store has the values of before but for the key's.
      abbrev pub Kept-Represents : Represents xxh3 f' now
      Kept-Represents = record {
        tables = tables;
        files = files;
        valid = record {
          cache = cache;
          number = number;
          holds = holds;
          own = λ j k.
              by_key key
                (λ q. j < shard_number → raw (tables j) q ≢ 127 → get_shard_index xxh3 q ≡ j)
                (given.own j) (λ q other lt ne. r.valid.own j q lt ((kept q other).stored j lt ne))
                k;
          coherent =
              by_key key (λ q. Coherent (cached m' q) (raw (tables (get_shard_index xxh3 q)) q))
                given.coherent (λ q other. (kept q other).coherent);
          counts = kept-counts;
        };
        reads =
            by_key key
              (λ q.
                f' q
                ≡ lookup m' (tables (get_shard_index xxh3 q)) (files (get_shard_index xxh3 q)) q)
              given.reads (λ q other. same q other ∙ r.reads q ∙ sym (kept q other).reads);
      }
