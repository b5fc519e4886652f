-- ===== src/Kvs/Valid.antt =====
-- The store of src/KVS.cpp as a map from keys to values, and its invariant.
use kvs_cash_machine.ByteArray.{ByteArray}
use kvs_cash_machine.CacheMap
use kvs_cash_machine.CacheMap.{CacheMap}
use kvs_cash_machine.Common.{
  ℕ, ◌+◌, ◌≤◌, ◌<◌, ◌≡◌, ◌≢◌, Option, none, if◌then◌else◌, ltb, leb, ◌&&◌, Bool, length, arith,
}
use kvs_cash_machine.Constants.{shard_number}
use kvs_cash_machine.Key.{Key}
use kvs_cash_machine.Kvs.{Kvs, shard_at}
use kvs_cash_machine.Shard.{State, hash, get_shard_index}
use kvs_cash_machine.Shard.Sound.{raw, contents}
use kvs_cash_machine.Shard.Valid.{Holds}
use kvs_cash_machine.ShardBuilder.Step.{cached}
use kvs_cash_machine.StorageHashTable.{StorageHashTable, get_entries}
use kvs_cash_machine.StorageHashTable.Number.{number_of}
use kvs_cash_machine.Value.{Value}

-- What a method of a shard works on.
abbrev pub state_at : Kvs → ℕ → State
state_at s i = record { shard = shard_at s i; disk = s.disk }

-- How the byte that the cache map has for a key goes with the byte that the key's table has: a
-- present pointer is the table's; a deleted one is of a value that the table still has; NONEXISTENT
-- is a key with no value in the table.
pub record Coherent (c r : ℕ) : Type 0 where
  pub byte : c < 256
  pub present : 128 ≤ c → c ≡ r
  pub deleted : c < 126 → r ≡ c + 128
  pub nonexistent : c ≡ 126 → r < 128

-- The value of a key: none if the cache map has it as removed or NONEXISTENT, and else the one that
-- its shard has.
unfoldable pub lookup : CacheMap → StorageHashTable → ByteArray → Key → Option Value
lookup m t v k = if ltb (cached m k) 127 then none else contents t v k

-- The shard has a value for the key, and the cache map does not have it as removed or NONEXISTENT.
unfoldable pub alive : CacheMap → StorageHashTable → Key → Bool
alive m t k = leb 127 (cached m k) && leb 128 (raw t k)

module _ (xxh3 : ByteArray → ℕ → ℕ) where
  pub shard_index-lt : (k : Key) → get_shard_index xxh3 k < shard_number
  unfolding get_shard_index
  shard_index-lt k = omega arith

  -- The cache map is valid; each shard is, with the table `tables i` and the values `files i`; each
  -- key is in the table of its own shard only; the cache map goes with the tables; and each shard's
  -- counter is the number of its keys with a value.
  pub record Valid (s : Kvs) (tables : ℕ → StorageHashTable) (files : ℕ → ByteArray) : Type 0 where
    pub cache : CacheMap.Valid.IsValid (hash xxh3) s.cache_map
    pub number : length s.shards ≡ shard_number
    pub holds : (i : ℕ) → i < shard_number → Holds xxh3 i (state_at s i) (tables i) (files i)
    pub own :
        (i : ℕ) (k : Key) → i < shard_number → raw (tables i) k ≢ 127 → get_shard_index xxh3 k ≡ i
    pub coherent :
        (k : Key) → Coherent (cached s.cache_map k) (raw (tables (get_shard_index xxh3 k)) k)
    pub counts :
        (i : ℕ)
        → i < shard_number
        → (shard_at s i).alive_values_cnt
          ≡ number_of (alive s.cache_map (tables i)) (get_entries (tables i))

  -- The store is valid and has these values.
  pub record Represents (f : Key → Option Value) (s : Kvs) : Type 0 where
    pub tables : ℕ → StorageHashTable
    pub files : ℕ → ByteArray
    pub valid : Valid s tables files
    pub reads :
        (k : Key)
        → f k
          ≡ lookup s.cache_map (tables (get_shard_index xxh3 k)) (files (get_shard_index xxh3 k)) k
