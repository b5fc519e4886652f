-- ===== src/Shard.antt =====
-- include/Shard.h and src/Shard.cpp: one shard, whose table and values are files that every call
-- reads anew.
pub mod Counter
pub mod Directly
pub mod Methods
pub mod Blocks
pub mod Files
pub mod Sound
pub mod Filter
pub mod Valid
pub mod Read
pub mod Frame
pub mod Change
pub mod Pointers
pub mod Overwrite
pub mod Write
pub mod Remove
use kvs_cash_machine.BloomFilter
use kvs_cash_machine.BloomFilter.{BloomFilter}
use kvs_cash_machine.ByteArray.{ByteArray}
use kvs_cash_machine.Common.{ℕ, ◌%◌, List, [], ◌∷◌, length}
use kvs_cash_machine.Constants.{shard_number}
use kvs_cash_machine.Disk.{Disk}
use kvs_cash_machine.Entry.{Entry}
use kvs_cash_machine.Key.{Key, hash_key}
use kvs_cash_machine.Outcome.{Result}

-- `class Shard`
pub record Shard : Type 0 where
  pub alive_values_cnt : ℕ
  pub filter : BloomFilter

-- What a method works on: the object and the disk.
pub record State : Type 0 where
  pub shard : Shard
  pub disk : Disk

-- A computation on the disk alone, and an update of the object.
abbrev pub on_disk : {A : Type 0} → (Disk → Result A × Disk) → State → Result A × State
on_disk m s = let (r, d) = m s.disk in (r, record s { disk = d })

-- `Shard::Shard()`, with the seeds that the filter draws
unfoldable pub new : ℕ → ℕ → Shard
new seed₁ seed₂ = record { alive_values_cnt = 0; filter = BloomFilter.new seed₁ seed₂ }

module _ (xxh3 : ByteArray → ℕ → ℕ) where
  -- `hashKey` with the default seed, by which the tables place their entries
  abbrev pub hash : Key → ℕ
  hash k = hash_key xxh3 k 0

  -- `Shard::getShardIndex`
  unfoldable pub get_shard_index : Key → ℕ
  get_shard_index k = hash k % shard_number

  -- The loop of `Shard::Shard(const std::vector<Entry>&)`.
  unfoldable pub add_all : BloomFilter → List Entry → BloomFilter
  add_all f [] = f
  add_all f (e ∷ es) = add_all (BloomFilter.add xxh3 f e.key) es

  -- `Shard::Shard(const std::vector<Entry>&)`; the counter is a byte.
  unfoldable pub of_entries : ℕ → ℕ → List Entry → Shard
  unfolding add_all
  of_entries seed₁ seed₂ es = record {
    alive_values_cnt = length es % 256;
    filter = add_all (BloomFilter.new seed₁ seed₂) es;
  }
