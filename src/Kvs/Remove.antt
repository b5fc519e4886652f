-- ===== src/Kvs/Remove.antt =====
-- `remove` of src/KVS.cpp, where the cache map has room or the key.
use kvs_cash_machine.ByteArray.{ByteArray}
use kvs_cash_machine.Common.{
  ℕ, ◌≤◌, ◌+◌, ◌*◌, ◌≢◌, ◌<◌, ◌≡◌, ◌∙◌, inl, inr, sym, refl, Option, length, arith,
}
use kvs_cash_machine.Key.{Key}
use kvs_cash_machine.Key.Laws.{by_key}
use kvs_cash_machine.Kvs.{Kvs, shard_at, remove, remove_by_type}
use kvs_cash_machine.Kvs.Became.{Became, stayed}
use kvs_cash_machine.Kvs.Became.{AreTight, Steady}
use kvs_cash_machine.Kvs.Rebuild.{NoneForgotten}
use kvs_cash_machine.Kvs.Room.{HasRoom, get_in_cache_lem}
use kvs_cash_machine.Kvs.Stages.{pointer-cases, lookup_low}
use kvs_cash_machine.Kvs.Valid.{state_at, Coherent, lookup, Represents, shard_index-lt}
use kvs_cash_machine.Outcome.{ok}
use kvs_cash_machine.Probe.Table.{view}
use kvs_cash_machine.Shard.{get_shard_index}
use kvs_cash_machine.Shard.Sound.{raw}
use kvs_cash_machine.Shard.Valid.{Holds}
use kvs_cash_machine.ShardBuilder.Step.{cached}
use kvs_cash_machine.StorageHashTable.{StorageHashTable}
use kvs_cash_machine.Value.{Value}
use kvs_cash_machine.Kvs.RemoveUncached.{remove_uncached}
use kvs_cash_machine.Kvs.RemovePresent.{remove_present, remove_present-Steady}
use kvs_cash_machine.Kvs.OneKey
use kvs_cash_machine.Kvs.OneKey.{few_alive, some_alive}

module _ (xxh3 : ByteArray → ℕ → ℕ) (f : Key → Option Value) (s : Kvs) (r : Represents xxh3 f s)
    (key : Key) where
  abbrev n : ℕ
  n = get_shard_index xxh3 key

  abbrev t : StorageHashTable
  t = r.tables n

  abbrev v : ByteArray
  v = r.files n

  abbrev c : ℕ
  c = cached s.cache_map key

  holds : Holds xxh3 n (state_at s n) t v
  holds = r.valid.holds n (shard_index-lt xxh3 key)

  coherent : Coherent c (raw t key)
  coherent = r.valid.coherent key

  abbrev without : Key → Option Value
  without = OneKey.without f key

  -- The key had no value.
  abbrev nothing : c < 127 → Represents xxh3 without s
  nothing low = record {
    tables = r.tables;
    files = r.files;
    valid = r.valid;
    reads =
        by_key key
          (λ q.
            without q
            ≡ lookup s.cache_map (r.tables (get_shard_index xxh3 q))
                (r.files (get_shard_index xxh3 q)) q)
          (OneKey.without_own f key ∙ sym (lookup_low s.cache_map t v key low))
          (λ q other. OneKey.without_other f key q other ∙ r.reads q);
  }

  unchanged_lem : (low : c < 127) → Became xxh3 f without s s r (nothing low) n 0
  unchanged_lem low = stayed xxh3 f without s r (nothing low) (λ j. refl) n 0

  -- `remove` on a valid store whose cache map has at most two thirds of its slots in use, and has no key as NONEXISTENT that the table
  -- of the key's shard has, succeeds, whether it rebuilds the shard or not: it leaves a valid store
  -- with no value for the key and the same values as before for the others, whose cache map has the
  -- same size and at most one used slot more, and whose tables are no larger. If every key of the
  -- tables was in the cache map, that is still so, and then, if no rebuild was due before, none is.
  pub remove-Represents :
      HasRoom s.cache_map
      → NoneForgotten xxh3 f s r n (shard_index-lt xxh3 key)
      → (s' : Kvs) × (remove xxh3 key s ≡ (ok tt, s'))
        × (r' : Represents xxh3 without s') × Became xxh3 f without s s' r r' n 0
  unfolding remove remove_by_type
  remove-Represents room known =
      let (slot, located, found) = get_in_cache_lem xxh3 s r.valid.cache key in
      elim (pointer-cases (view s.cache_map.entries key) coherent.byte) [
        | inl (e, type) ↦
            let (s', eq, represents, grown) = remove_uncached xxh3 f s r key room e in
            (s', rw (found, type) eq, represents, grown)
        | inr (inl (e, type)) ↦
            (s, rw (found, type) refl, nothing (omega (arith, e)), unchanged_lem (omega (arith, e)))
        | inr (inr (inl (low, type))) ↦ (
          s,
          rw (found, type) refl,
          nothing (omega (arith, low)),
          unchanged_lem (omega (arith, low)),
        )
        | inr (inr (inr (high, type))) ↦
            let (s', eq, represents, grown) =
              remove_present xxh3 f s r key high slot located known room in
            (s', rw (found, type) eq, represents, grown)
      ]

  -- `remove` of a key that the cache map has, on a valid store in which no rebuild is due, succeeds if
  -- the table of the key's shard has at most as many entries as twice the counter of the shard less two:
  -- it leaves a valid store with no value for the key and the same values as before for the others, in
  -- which no rebuild is due, and whose cache map has the same size.
  pub remove-Steady :
      AreTight xxh3 f s r
      → c ≢ 127
      → t.used_size + 2 ≤ 2 * (shard_at s n).alive_values_cnt
      → (s' : Kvs) × (remove xxh3 key s ≡ (ok tt, s'))
        × Steady xxh3 without (length s.cache_map.entries) s'
  unfolding remove remove_by_type
  remove-Steady tight stored enough =
      let (slot, located, found) = get_in_cache_lem xxh3 s r.valid.cache key in
      elim (pointer-cases (view s.cache_map.entries key) coherent.byte) [
        | inl (e, type) ↦ absurd (stored e)
        | inr (inl (e, type)) ↦ (
          s,
          rw (found, type) refl,
          record { represents = nothing (omega (arith, e)); tight = tight; size = refl },
        )
        | inr (inr (inl (low, type))) ↦ (
          s,
          rw (found, type) refl,
          record { represents = nothing (omega (arith, low)); tight = tight; size = refl },
        )
        | inr (inr (inr (high, type))) ↦
            let (s', eq, steady) =
              remove_present-Steady xxh3 f s r key high slot located tight enough in
            (s', rw (found, type) eq, steady)
      ]
