-- ===== src/Kvs/AddHere.antt =====
-- `add` of src/KVS.cpp of a key that the cache map has as present or deleted.
use kvs_cash_machine.ByteArray.{ByteArray}
use kvs_cash_machine.CacheMap
use kvs_cash_machine.CacheMap.{CacheMap}
use kvs_cash_machine.Common.{
  set, ℕ, ◌+◌, ◌%◌, ◌≤◌, ◌<◌, ◌≡◌, ◌∙◌, ◌⊎◌, inr, sym, ap, refl, true, Option, set-set,
  get_or-set_self, length, arith,
}
use kvs_cash_machine.Constants.{value_size}
use kvs_cash_machine.Key.{Key}
use kvs_cash_machine.Kvs.{Kvs, shard_at, add_by_type}
use kvs_cash_machine.Kvs.Became.{IsTight, AreTight, Steady, Changed-Became, now-AreTight}
use kvs_cash_machine.Kvs.Counter.{alive_low, alive_high}
use kvs_cash_machine.Kvs.After.{after}
use kvs_cash_machine.Kvs.Change.{Changed, Changed-Represents}
use kvs_cash_machine.Kvs.Room.{
  Cached, Grown, Grown-refl, Cached-Grown, on_shard_lem, set_in_cache_lem,
}
use kvs_cash_machine.Kvs.Stages.{lookup_high, with_cache, called}
use kvs_cash_machine.Kvs.Valid.{state_at, Coherent, lookup, Represents, shard_index-lt}
use kvs_cash_machine.Outcome.{ok}
use kvs_cash_machine.Probe.Table.{view}
use kvs_cash_machine.Ptr.Laws.{with_flag}
use kvs_cash_machine.Ptr.{Ptr, PtrType, present, deleted}
use kvs_cash_machine.Shard
use kvs_cash_machine.Shard.{State, hash, on_disk, get_shard_index}
use kvs_cash_machine.Shard.Counter.{set_count, increment_alive_values_cnt}
use kvs_cash_machine.Shard.Directly.{write_value_directly}
use kvs_cash_machine.Shard.Overwrite.{Written, write_value_directly-Written}
use kvs_cash_machine.Shard.Sound.{raw}
use kvs_cash_machine.Shard.Valid.{Holds, Holds-count}
use kvs_cash_machine.ShardBuilder.Step.{cached}
use kvs_cash_machine.StorageHashTable.{StorageHashTable}
use kvs_cash_machine.Value.{Value}
use kvs_cash_machine.Kvs.OneKey
use kvs_cash_machine.Kvs.OneKey.{few_alive}
use kvs_cash_machine.Kvs.AddNew
use kvs_cash_machine.Kvs.AddNew.{to_called, new_value, written_alive, written-IsTight}

module _ (xxh3 : ByteArray → ℕ → ℕ) (f : Key → Option Value) (s : Kvs) (r : Represents xxh3 f s)
    (key : Key) (value : Value) (whole : length value.bytes ≡ value_size) where
  abbrev n : ℕ
  n = get_shard_index xxh3 key

  abbrev t : StorageHashTable
  t = r.tables n

  abbrev v : ByteArray
  v = r.files n

  abbrev c : ℕ
  c = cached s.cache_map key

  holds : Holds xxh3 n (state_at s n) t v
  holds = r.valid.holds n (shard_index-lt xxh3 key)

  coherent : Coherent c (raw t key)
  coherent = r.valid.coherent key

  abbrev a : ℕ
  a = (shard_at s n).alive_values_cnt

  abbrev added : Key → Option Value
  added = OneKey.added f key value

  abbrev Roomy : Kvs → Type 0
  Roomy = AddNew.Roomy xxh3 f s r key value whole

  abbrev Ends : (Kvs → Type 0) → ℕ → PtrType → Type 0
  Ends = AddNew.Ends xxh3 f s r key value whole

  -- The store is one of both.
  abbrev pub Both : Kvs → Type 0
  Both s'' = Roomy s'' × (AreTight xxh3 f s r → Steady xxh3 added (length s.cache_map.entries) s'')

  both_lem :
      (s' : State) (t' : StorageHashTable) (v' : ByteArray) (m' : CacheMap)
      (changed : Changed xxh3 f s r key s' t' v' m') (random : ℕ → ℕ)
      → added key ≡ lookup m' t' v' key
      → Grown s.cache_map m'
      → t'.used_size ≤ t.used_size + 1
      → (cached m' key < 126) ⊎ (128 ≤ cached m' key)
      → (IsTight a t → IsTight s'.shard.alive_values_cnt t')
      → Both (after s n s' m' random)
  both_lem s' t' v' m' changed random own grown grew known tight = (
    (
      Changed-Represents xxh3 f s r key s' t' v' m' changed random added own
          (OneKey.added_other f key value),
      Changed-Became xxh3 f s r key s' t' v' m' changed random added own
          (OneKey.added_other f key value) 1 grown grew (λ _ _. known) (λ _. tight),
    ),
    λ all. record {
      represents =
          Changed-Represents xxh3 f s r key s' t' v' m' changed random added own
            (OneKey.added_other f key value);
      tight =
          now-AreTight xxh3 f s r key s' t' v' m' changed random added own
            (OneKey.added_other f key value) (tight (all n (shard_index-lt xxh3 key))) all;
      size = grown.size;
    },
  )

  module _ (index : c % 128 ≡ raw t key % 128) (high : 128 ≤ raw t key) where
    directly :
        (s' : State) × (v' : ByteArray) × (on_disk
            (write_value_directly n (view s.cache_map.entries key) value)
            (state_at s n)
          ≡ (ok tt, s'))
        × Written xxh3 n (state_at s n) t v key value (view t.entries key) s' t v'
    directly =
        write_value_directly-Written xxh3 n (state_at s n) t v key holds value whole
          (view s.cache_map.entries key) coherent.byte index high

  pub add_present : 128 ≤ c → (slot : ℕ) → Ends Both slot present
  unfolding add_by_type
  add_present high slot =
      let (s', v', wrote, w) =
        directly (ap (λ x. x % 128) (coherent.present high))
          (omega (arith, coherent.present high)) in
      let there : 128 ≤ raw t key = omega (arith, coherent.present high) in
      let same = written_alive xxh3 f s r key value whole (view t.entries key) s' t v' w there in
      let changed =
        with_cache xxh3 f s r key s' t v'
          (to_called xxh3 f s r key value whole (view t.entries key) s' t v' w) coherent
          (rw same refl) in
      let own =
        OneKey.added_own f key value
        ∙ sym (
            lookup_high s.cache_map t v' key (omega (arith, high))
            ∙ new_value xxh3 f s r key value whole (view t.entries key) s' t v' w) in
      (
        after s n s' s.cache_map s.random,
        rw
            (on_shard_lem n (on_disk (write_value_directly n (view s.cache_map.entries key) value))
              s _ s' wrote)
            refl,
        both_lem s' t v' s.cache_map changed s.random own (Grown-refl s.cache_map) (omega arith)
            (inr high) (written-IsTight xxh3 f s r key value whole (view t.entries key) s' t v' w),
      )

  module _ (low : c < 126) where
    high : 128 ≤ raw t key
    high = omega (arith, coherent.deleted low)

    inside : n < length s.shards
    inside = rw r.valid.number (shard_index-lt xxh3 key)

    module _ (s' : State) (v' : ByteArray)
        (w : Written xxh3 n (state_at s n) t v key value (view t.entries key) s' t v') where
      abbrev counted : State
      counted = set_count s' ((s'.shard.alive_values_cnt + 1) % 256)

      abbrev written : Kvs
      written =
          called xxh3 f s r key s' t v'
            (to_called xxh3 f s r key value whole (view t.entries key) s' t v' w)

      module _ (m' : CacheMap)
          (put : Cached xxh3 written r.valid.cache
            (record { key = key; ptr = record { raw = with_flag (c % 128) true } })
            m') where
        self : cached m' key ≡ raw t key
        self = ap Ptr.raw put.self ∙ omega (arith, coherent.deleted low)

        revived-Changed : Changed xxh3 f s r key counted t v' m'
        revived-Changed = record {
          holds = Holds-count xxh3 n s' t v' w.holds ((s'.shard.alive_values_cnt + 1) % 256);
          framed = w.framed;
          pointers = λ q other. ap Ptr.raw (w.pointers q) ∙ rw other refl;
          reads = λ q other. w.reads q ∙ rw other refl;
          cache = put.cache;
          others = λ q other. ap Ptr.raw (put.others q other);
          coherent = record {
            byte = omega (arith, self, coherent.deleted low);
            present = λ _. self;
            deleted = λ z. absurd (omega (arith, z, self, high));
            nonexistent = λ z. absurd (omega (arith, z, self, high));
          };
          counted =
              rw
                (
                  alive_low s.cache_map t key (omega (arith, low)),
                  alive_high m' t key (omega (arith, self, high)) high,
                  written_alive xxh3 f s r key value whole (view t.entries key) s' t v' w high,
                )
                (omega (arith, few_alive xxh3 f s r key));
        }

        revived-own : added key ≡ lookup m' t v' key
        revived-own =
            OneKey.added_own f key value
            ∙ sym (
                lookup_high m' t v' key (omega (arith, self, high))
                ∙ new_value xxh3 f s r key value whole (view t.entries key) s' t v' w)

        revived-Both : Both (after s n counted m' s.random)
        revived-Both =
            both_lem counted t v' m' revived-Changed s.random revived-own
              (Cached-Grown xxh3 written r.valid.cache put) (omega arith)
              (inr (omega (arith, self, high)))
              (λ tight. omega (
                arith,
                written_alive xxh3 f s r key value whole (view t.entries key) s' t v' w high,
                few_alive xxh3 f s r key,
                tight,
              ))

      set_twice : set (set s.shards n s'.shard) n counted.shard ≡ set s.shards n counted.shard
      set_twice = set-set s.shards n s'.shard counted.shard

    -- A key whose removed value the shard still has gets its value back, and the counter goes up.
    pub add_deleted :
        (slot : ℕ) → CacheMap.locate (hash xxh3) s.cache_map key ≡ ok slot → Ends Both slot deleted
    unfolding add_by_type increment_alive_values_cnt
    add_deleted slot located =
        let (s', v', wrote, w) = directly (omega (arith, coherent.deleted low)) high in
        let (m', set', put) =
          set_in_cache_lem xxh3 (written s' v' w) r.valid.cache key slot true located coherent.byte
            (omega (arith, low)) in
        (
          after s n (counted s' v' w) m' s.random,
          rw
              (
                on_shard_lem n
                    (on_disk (write_value_directly n (view s.cache_map.entries key) value)) s _ s'
                    wrote,
                set',
                get_or-set_self s.shards n s'.shard (Shard.new 0 0) inside,
                set_twice s' v' w,
              )
              refl,
          revived-Both s' v' w m' put,
        )
