-- ===== src/Kvs/Get.antt =====
-- `get` of src/KVS.cpp.
use kvs_cash_machine.ByteArray.{ByteArray}
use kvs_cash_machine.Common.{
  length, set-get_or, ℕ, ◌%◌, ◌≤◌, ◌<◌, ◌≡◌, ◌∙◌, inl, inr, sym, refl, Option, none, some, arith,
}
use kvs_cash_machine.Key.{Key}
use kvs_cash_machine.Kvs.{Kvs, get, get_by_type}
use kvs_cash_machine.Kvs.Became.{Became, AreTight, Steady, stayed}
use kvs_cash_machine.Shard
use kvs_cash_machine.Kvs.Room.{HasRoom, get_in_cache_lem}
use kvs_cash_machine.Kvs.Stages.{pointer-cases, lookup_low, lookup_high}
use kvs_cash_machine.Kvs.Valid.{state_at, Coherent, Represents, shard_index-lt}
use kvs_cash_machine.Outcome.{ok}
use kvs_cash_machine.Probe.Table.{view}
use kvs_cash_machine.Ptr.{present}
use kvs_cash_machine.Shard.{get_shard_index}
use kvs_cash_machine.Shard.Blocks.{block}
use kvs_cash_machine.Shard.Directly.{read_value_directly}
use kvs_cash_machine.Shard.Read.{read_directly-block}
use kvs_cash_machine.Shard.Sound.{raw, contents_high}
use kvs_cash_machine.Shard.Valid.{Holds}
use kvs_cash_machine.ShardBuilder.Step.{cached}
use kvs_cash_machine.StorageHashTable.{StorageHashTable}
use kvs_cash_machine.Value.{Value}
use kvs_cash_machine.Kvs.GetUncached
use kvs_cash_machine.Kvs.GetUncached.{Puts, put-Roomy, put-Steady, get_uncached}

module _ (xxh3 : ByteArray → ℕ → ℕ) (f : Key → Option Value) (s : Kvs) (r : Represents xxh3 f s)
    (key : Key) where
  abbrev n : ℕ
  n = get_shard_index xxh3 key

  abbrev t : StorageHashTable
  t = r.tables n

  abbrev v : ByteArray
  v = r.files n

  abbrev c : ℕ
  c = cached s.cache_map key

  holds : Holds xxh3 n (state_at s n) t v
  holds = r.valid.holds n (shard_index-lt xxh3 key)

  coherent : Coherent c (raw t key)
  coherent = r.valid.coherent key

  -- A present pointer of the cache map reads the value.
  read_present :
      128 ≤ c
      → read_value_directly n (view s.cache_map.entries key) s.disk
        ≡ (ok (record { bytes = block (raw t key % 128) v }), s.disk)
  read_present high =
      let same : view s.cache_map.entries key ≡ view t.entries key =
        (λ j. record { raw = coherent.present high j }) in
      rw same (
        read_directly-block xxh3 n (state_at s n) t v holds key
          (omega (arith, coherent.present high)))

  get_present :
      128 ≤ c → get_by_type xxh3 n key (view s.cache_map.entries key) present s ≡ (ok (f key), s)
  unfolding get_by_type
  get_present high =
      let value : f key ≡ some (record { bytes = block (raw t key % 128) v }) =
        r.reads key
        ∙ lookup_high s.cache_map t v key (omega (arith, high))
        ∙ contents_high t v key (omega (arith, coherent.present high)) in
      rw (read_present high, value, set-get_or s.shards n (Shard.new 0 0))

  abbrev Roomy : Kvs → Type 0
  Roomy = GetUncached.Roomy xxh3 f s r key

  absent : c < 127 → none ≡ f key
  absent low = sym (r.reads key ∙ lookup_low s.cache_map t v key low)

  -- Only a key that the cache map does not have changes the store.
  get_with :
      (Done : Kvs → Type 0)
      → Done s
      → ((e : c ≡ 127) → Puts xxh3 f s r key e Done)
      → (s' : Kvs) × (get xxh3 key s ≡ (ok (f key), s')) × Done s'
  unfolding get get_by_type
  get_with Done same puts =
      let (slot, located, found) = get_in_cache_lem xxh3 s r.valid.cache key in
      elim (pointer-cases (view s.cache_map.entries key) coherent.byte) [
        | inl (e, type) ↦
            let (s', eq, done) = get_uncached xxh3 f s r key e Done (puts e) in
            (s', rw (found, type) eq, done)
        | inr (inl (e, type)) ↦ (s, rw (found, type, sym (absent (omega (arith, e)))), same)
        | inr (inr (inl (low, type))) ↦
            (s, rw (found, type, sym (absent (omega (arith, low)))), same)
        | inr (inr (inr (high, type))) ↦ (s, rw (found, type) (get_present high), same)
      ]

  -- `get` on a valid store whose cache map has at most two thirds of its slots in use does not fail and returns the value of the key,
  -- and leaves a valid store with the same values, whose cache map has the same size and at most one
  -- used slot more, and whose tables are no larger. If every key of the tables was in the cache map,
  -- that is still so, and then, if no rebuild was due, none is.
  pub get-Represents :
      HasRoom s.cache_map
      → (s' : Kvs) × (get xxh3 key s ≡ (ok (f key), s'))
        × (r' : Represents xxh3 f s') × Became xxh3 f f s s' r r' n 0
  get-Represents room =
      let same : Roomy s = (r, stayed xxh3 f f s r r (λ j. refl) n 0) in
      let (s', eq, (r', became)) = get_with Roomy same (λ e. put-Roomy xxh3 f s r key e room) in
      (s', eq, r', became)

  -- `get` on a valid store in which no rebuild is due in any shard does not fail and returns the value of the key,
  -- even if it displaces an entry of the cache map, and leaves a valid store with the same values, in
  -- which no rebuild is due, and whose cache map has the same size.
  pub get-Steady :
      AreTight xxh3 f s r
      → (s' : Kvs) × (get xxh3 key s ≡ (ok (f key), s'))
        × Steady xxh3 f (length s.cache_map.entries) s'
  get-Steady tight =
      get_with (Steady xxh3 f (length s.cache_map.entries))
        (record { represents = r; tight = tight; size = refl })
        (λ e. put-Steady xxh3 f s r key e tight)
