-- ===== src/Kvs/Counter.antt =====
-- The counters of the shards of src/KVS.cpp when keys change.
use kvs_cash_machine.ByteArray.{ByteArray}
use kvs_cash_machine.CacheMap.{CacheMap}
use kvs_cash_machine.Common.{
  ℕ, ◌+◌, ◌≤◌, ◌<◌, ◌≡◌, ◌≢◌, ◌∙◌, sym, ap, refl, true, false, length, arith,
}
use native.Mathlib.Decide.{ℕ_discrete}
use kvs_cash_machine.Key
use kvs_cash_machine.Key.{Key}
use kvs_cash_machine.Kvs.Valid.{alive}
use kvs_cash_machine.Ptr.{Ptr}
use kvs_cash_machine.Shard.{hash}
use kvs_cash_machine.Shard.Sound.{Sound, raw, used-le}
use kvs_cash_machine.ShardBuilder.Step.{cached}
use kvs_cash_machine.StorageHashTable.Entries.{listed, get_entries_lem}
use kvs_cash_machine.StorageHashTable.Number.{
  one_if, number_of, number_of-le, number_of_ext, number_of_all, number_of_change,
  number_of-positive,
}
use kvs_cash_machine.StorageHashTable.{StorageHashTable, get_entries}

-- The number of keys of the table with a value.
abbrev pub alive_number : CacheMap → StorageHashTable → ℕ
alive_number m t = number_of (alive m t) (get_entries t)

module _ (m : CacheMap) (t : StorageHashTable) (k : Key) where
  pub alive_low : cached m k < 127 → alive m t k ≡ false
  unfolding alive
  alive_low low = ground arith

  pub alive_dead : raw t k < 128 → alive m t k ≡ false
  unfolding alive
  alive_dead dead = ground arith

  pub alive_high : 127 ≤ cached m k → 128 ≤ raw t k → alive m t k ≡ true
  unfolding alive
  alive_high high there = ground arith

  pub alive-stored : alive m t k ≡ true → raw t k ≢ 127
  unfolding alive
  alive-stored yes' z = ground arith

pub alive_same :
    (m m' : CacheMap) (t t' : StorageHashTable) (k : Key)
    → cached m' k ≡ cached m k
    → raw t' k ≡ raw t k
    → alive m' t' k ≡ alive m t k
unfolding alive
alive_same m m' t t' k c r = rw (c, r) refl

module _ (xxh3 : ByteArray → ℕ → ℕ) (t : StorageHashTable) (v : ByteArray)
    (sound : Sound xxh3 t v) where
  listed-raw : (k : Key) → listed (get_entries t) k ≡ raw t k
  listed-raw k = ap Ptr.raw ((get_entries_lem (hash xxh3) t sound.table.probed).0 k)

  entries_number : length (get_entries t) ≡ t.used_size
  entries_number = (get_entries_lem (hash xxh3) t sound.table.probed).2 ∙ sym sound.table.counted

  pub alive_number-le : (m : CacheMap) → alive_number m t ≤ t.used_size
  alive_number-le m = omega (arith, number_of-le (alive m t) (get_entries t), entries_number)

  pub alive_number-small : (m : CacheMap) → alive_number m t ≤ 45
  alive_number-small m = omega (arith, alive_number-le m, used-le xxh3 t v sound)

  pub alive_number-positive : (m : CacheMap) (k : Key) → alive m t k ≡ true → 1 ≤ alive_number m t
  alive_number-positive m k yes' =
      number_of-positive (alive m t) k (get_entries t)
        (get_entries_lem (hash xxh3) t sound.table.probed).1 yes'
        (λ z. alive-stored m t k yes' (sym (listed-raw k) ∙ z))

  -- All the keys have a value.
  pub alive_number_all :
      (m : CacheMap)
      → ((k : Key) → raw t k ≢ 127 → alive m t k ≡ true)
      → alive_number m t ≡ t.used_size
  alive_number_all m all =
      number_of_all (alive m t) (get_entries t) (get_entries_lem (hash xxh3) t sound.table.probed).1
        (λ k ne. all k (λ z. ne (listed-raw k ∙ z)))
      ∙ entries_number

  -- The cache map changes at keys of other tables.
  pub alive_number_elsewhere :
      (m m' : CacheMap)
      → ((k : Key) → raw t k ≢ 127 → cached m' k ≡ cached m k)
      → alive_number m' t ≡ alive_number m t
  alive_number_elsewhere m m' same = number_of_ext (alive m' t) (alive m t) (get_entries t) (λ k.
      elim (ℕ_discrete (raw t k) 127) [
        | yes e ↦ alive_dead m' t k (omega (arith, e)) ∙ sym (alive_dead m t k (omega (arith, e)))
        | no ne ↦ alive_same m m' t t k (same k ne) refl
      ])

  -- One key changes, in the table, in the cache map or in both.
  pub alive_number_change :
      (t' : StorageHashTable) (v' : ByteArray)
      → Sound xxh3 t' v'
      → (m m' : CacheMap) (key : Key)
      → ((q : Key) → Key.eq key q ≡ false → cached m' q ≡ cached m q)
      → ((q : Key) → Key.eq key q ≡ false → raw t' q ≡ raw t q)
      → alive_number m' t' + one_if (alive m t key) ≡ alive_number m t + one_if (alive m' t' key)
  alive_number_change t' v' sound' m m' key others pointers =
      let (view', distinct', _) = get_entries_lem (hash xxh3) t' sound'.table.probed in
      number_of_change (alive m t) (alive m' t') key (get_entries t) (get_entries t')
        (get_entries_lem (hash xxh3) t sound.table.probed).1 distinct'
        (λ q other. alive_same m m' t t' q (others q other) (pointers q other))
        (λ q yes' z. alive-stored m t q yes' (sym (listed-raw q) ∙ z))
        (λ q yes' z. alive-stored m' t' q yes' (sym (ap Ptr.raw (view' q)) ∙ z))
