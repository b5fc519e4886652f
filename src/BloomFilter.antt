-- ===== src/BloomFilter.antt =====
-- include/BloomFilter.h and src/BloomFilter.cpp: the filter that a shard asks before it reads its
-- table from disk.
pub mod Laws
use kvs_cash_machine.ByteArray.{ByteArray}
use kvs_cash_machine.Common.{
  ℕ, ◌%◌, Bool, true, false, not, List, [], ◌∷◌, if◌then◌else◌, get_or, set, replicate,
}
use kvs_cash_machine.Constants.{bloom_filter_size, size_t_mod}
use kvs_cash_machine.Key.{Key, hash_key}

-- `class BloomFilter`
pub record BloomFilter : Type 0 where
  pub bitset : List Bool
  pub seeds : List ℕ

-- `BloomFilter::BloomFilter`; the arguments are the seeds that `distr(gen)` gives, of
-- BLOOM_FILTER_HASH_FUNCTIONS_NUMBER = 2 rounds.
unfoldable pub new : ℕ → ℕ → BloomFilter
new seed₁ seed₂ = record { bitset = replicate bloom_filter_size false; seeds = seed₁ ∷ seed₂ ∷ [] }

-- `mapToBitset`
unfoldable pub map_to_bitset : ℕ → ℕ
map_to_bitset hash = hash % bloom_filter_size

module _ (xxh3 : ByteArray → ℕ → ℕ) where
  -- The loop of `add`.
  unfoldable pub add_seeds : List ℕ → Key → List Bool → List Bool
  add_seeds [] key bits = bits
  add_seeds (seed ∷ seeds) key bits =
      add_seeds seeds key (set bits (map_to_bitset (hash_key xxh3 key seed)) true)

  -- `BloomFilter::add`
  unfoldable pub add : BloomFilter → Key → BloomFilter
  add f key = record f { bitset = add_seeds f.seeds key f.bitset }

  -- The loop of `checkExist`.
  unfoldable pub check_seeds : List ℕ → Key → List Bool → Bool
  check_seeds [] key bits = true
  check_seeds (seed ∷ seeds) key bits =
      if not (get_or bits (map_to_bitset (hash_key xxh3 key seed)) false)
      then false
      else check_seeds seeds key bits

  -- `BloomFilter::checkExist`
  unfoldable pub check_exist : BloomFilter → Key → Bool
  check_exist f key = check_seeds f.seeds key f.bitset
