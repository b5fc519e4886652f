-- ===== src/Kvs/Live.antt =====
-- The counters of the shards of src/KVS.cpp, as a property of the store's values alone.
use kvs_cash_machine.ByteArray.{ByteArray}
use kvs_cash_machine.Common.{
  ℕ, ◌+◌, ◌==◌, ◌≤◌, ◌<◌, ◌≡◌, ◌∙◌, sym, ap, refl, Bool, true, false, ◌&&◌, List, length, Option,
  is_some, ==_true, ==_false, arith,
}
use mathlib.Core.Bool.{false≢true}
use mathlib.Core.Path.{subst}
use native.Mathlib.Decide.{ℕ_discrete, dec_lt}
use kvs_cash_machine.CacheMap.{CacheMap}
use kvs_cash_machine.Constants.{shard_number}
use kvs_cash_machine.Key
use kvs_cash_machine.Key.{Key}
use kvs_cash_machine.Kvs.{Kvs, shard_at}
use kvs_cash_machine.Kvs.Counter.{alive_low, alive_dead, alive_high}
use kvs_cash_machine.Kvs.Stages.{lookup_low, lookup_high}
use kvs_cash_machine.Kvs.Valid.{alive, Represents, lookup}
use kvs_cash_machine.Ptr.{Ptr}
use kvs_cash_machine.Shard.{get_shard_index, hash}
use kvs_cash_machine.Shard.Sound.{raw, contents_low, contents_high}
use kvs_cash_machine.ShardBuilder.Step.{cached}
use kvs_cash_machine.StorageHashTable.Entries.{get_entries_lem}
use kvs_cash_machine.StorageHashTable.Keys.{
  IsListOf, keys_with, keys_with-IsListOf, length-keys_with,
}
use kvs_cash_machine.StorageHashTable.Number.{one_if, number_of, number_of_ext, number_of_change}
use kvs_cash_machine.StorageHashTable.{StorageHashTable, get_entries}
use kvs_cash_machine.Value.{Value}

alive-lookup :
    (m : CacheMap) (t : StorageHashTable) (v : ByteArray) (k : Key)
    → alive m t k ≡ is_some (lookup m t v k)
alive-lookup m t v k = elim (dec_lt (cached m k) 127) [
  | yes low ↦ alive_low m t k low ∙ sym (ap is_some (lookup_low m t v k low))
  | no high ↦ elim (dec_lt (raw t k) 128) [
    | yes dead ↦
        alive_dead m t k dead
        ∙ sym (ap is_some (lookup_high m t v k (omega arith) ∙ contents_low t v k dead))
    | no there ↦
        alive_high m t k (omega arith) (omega arith)
        ∙ sym (ap is_some (lookup_high m t v k (omega arith) ∙ contents_high t v k (omega arith)))
  ]
]

module _ (xxh3 : ByteArray → ℕ → ℕ) where
  -- The key has a value, and belongs to the shard.
  abbrev pub lives_in : (Key → Option Value) → ℕ → Key → Bool
  lives_in f i k = get_shard_index xxh3 k == i && is_some (f k)

  module _ (f : Key → Option Value) (s : Kvs) (r : Represents xxh3 f s) (i : ℕ)
      (lt : i < shard_number) where
    alive-lives_in : (k : Key) → alive s.cache_map (r.tables i) k ≡ lives_in f i k
    alive-lives_in k = elim (ℕ_discrete (get_shard_index xxh3 k) i) [
      | yes e ↦
          subst
            (λ j. alive s.cache_map (r.tables j) k ≡ (get_shard_index xxh3 k == j && is_some (f k)))
            e
            (alive-lookup s.cache_map (r.tables (get_shard_index xxh3 k))
                (r.files (get_shard_index xxh3 k)) k
              ∙ rw (==_true {a = get_shard_index xxh3 k} refl, r.reads k) refl)
      | no ne ↦
          let absent : raw (r.tables i) k ≡ 127 = elim (ℕ_discrete (raw (r.tables i) k) 127) [
            | yes z ↦ z
            | no there ↦ absurd (ne (r.valid.own i k lt there))
          ] in
          alive_dead s.cache_map (r.tables i) k (omega (arith, absent)) ∙ rw (==_false ne) refl
    ]

    -- In a valid store, the counter of each shard is the number of the keys of its table that have a
    -- value and belong to it; and every such key is in its table.
    pub counter-lives_in :
        ((shard_at s i).alive_values_cnt ≡ number_of (lives_in f i) (get_entries (r.tables i)))
        × ((k : Key) → lives_in f i k ≡ true → 128 ≤ raw (r.tables i) k)
    counter-lives_in = (
      r.valid.counts i lt
          ∙ number_of_ext (alive s.cache_map (r.tables i)) (lives_in f i) (get_entries (r.tables i))
              alive-lives_in,
      λ k yes'. elim (dec_lt (raw (r.tables i) k) 128) [
        | yes dead ↦ absurd (
            false≢true (sym (alive_dead s.cache_map (r.tables i) k dead) ∙ alive-lives_in k ∙ yes'))
        | no there ↦ omega arith
      ],
    )

    -- The keys with a value, as a list.
    pub counter-IsListOf :
        (ks : List Key) × IsListOf (lives_in f i) ks × ((shard_at s i).alive_values_cnt ≡ length ks)
    counter-IsListOf =
        let es = get_entries (r.tables i) in
        let (view, distinct, _) =
          get_entries_lem (hash xxh3) (r.tables i) (r.valid.holds i lt).sound.table.probed in
        let (count, stored) = counter-lives_in in
        (
          keys_with (lives_in f i) es,
          keys_with-IsListOf (lives_in f i) es distinct
              (λ k yes' z. omega (arith, stored k yes', ap Ptr.raw (view k), z)),
          count ∙ sym (length-keys_with (lives_in f i) es),
        )

  -- If one key changes, the counters change by that key.
  pub counter_change :
      (f f' : Key → Option Value) (s s' : Kvs) (r : Represents xxh3 f s)
      (r' : Represents xxh3 f' s') (key : Key)
      → ((q : Key) → Key.eq key q ≡ false → f' q ≡ f q)
      → (i : ℕ) → i < shard_number
      → (shard_at s' i).alive_values_cnt + one_if (lives_in f i key)
        ≡ (shard_at s i).alive_values_cnt + one_if (lives_in f' i key)
  counter_change f f' s s' r r' key others i lt =
      let (view, distinct, _) =
        get_entries_lem (hash xxh3) (r.tables i) (r.valid.holds i lt).sound.table.probed in
      let (view', distinct', _) =
        get_entries_lem (hash xxh3) (r'.tables i) (r'.valid.holds i lt).sound.table.probed in
      let (count, stored) = counter-lives_in f s r i lt in
      let (count', stored') = counter-lives_in f' s' r' i lt in
      let change =
        number_of_change (lives_in f i) (lives_in f' i) key (get_entries (r.tables i))
          (get_entries (r'.tables i)) distinct distinct' (λ q other. rw (others q other) refl)
          (λ q yes' z. omega (arith, stored q yes', ap Ptr.raw (view q), z))
          (λ q yes' z. omega (arith, stored' q yes', ap Ptr.raw (view' q), z)) in
      omega (arith, change, count, count')
