-- ===== src/BloomFilter/Laws.antt =====
-- The filter never denies a key that was added.
use kvs_cash_machine.BloomFilter.{
  BloomFilter, new, map_to_bitset, add_seeds, add, check_seeds, check_exist,
}
use kvs_cash_machine.ByteArray.{ByteArray}
use kvs_cash_machine.Common.{
  ℕ, zero, suc, ◌<◌, ◌≡◌, refl, ◌∙◌, Bool, true, false, List, [], ◌∷◌, length, length-set, get_or,
  set, get_or-set_self, get_or-replicate, arith,
}
use kvs_cash_machine.Constants.{bloom_filter_size}
use kvs_cash_machine.Key.{Key, hash_key}

abbrev bit : List Bool → ℕ → Bool
bit bits i = get_or bits i false

bit-set : (bits : List Bool) (i j : ℕ) → bit bits i ≡ true → bit (set bits j true) i ≡ true
bit-set [] i j h = h
bit-set (x ∷ bits) zero zero h = refl
bit-set (x ∷ bits) zero (suc j) h = h
bit-set (x ∷ bits) (suc i) zero h = h
bit-set (x ∷ bits) (suc i) (suc j) h = bit-set bits i j h

map_to_bitset-lt : (h : ℕ) → map_to_bitset h < bloom_filter_size
unfolding map_to_bitset
map_to_bitset-lt h = omega arith

module _ (xxh3 : ByteArray → ℕ → ℕ) where
  -- The filter has its nineteen bits.
  abbrev pub IsValid : BloomFilter → Type 0
  IsValid f = length f.bitset ≡ bloom_filter_size

  add_seeds-keep :
      (seeds : List ℕ) (k : Key) (bits : List Bool) (i : ℕ)
      → bit bits i ≡ true
      → bit (add_seeds xxh3 seeds k bits) i ≡ true
  unfolding add_seeds
  add_seeds-keep [] k bits i h = h
  add_seeds-keep (seed ∷ seeds) k bits i h =
      add_seeds-keep seeds k _ i (bit-set bits i (map_to_bitset (hash_key xxh3 k seed)) h)

  length-add_seeds :
      (seeds : List ℕ) (k : Key) (bits : List Bool)
      → length (add_seeds xxh3 seeds k bits) ≡ length bits
  unfolding add_seeds
  length-add_seeds [] k bits = refl
  length-add_seeds (seed ∷ seeds) k bits =
      length-add_seeds seeds k (set bits (map_to_bitset (hash_key xxh3 k seed)) true)
      ∙ length-set bits (map_to_bitset (hash_key xxh3 k seed)) true

  check_seeds_mono :
      (seeds : List ℕ) (k : Key) (bits bits' : List Bool)
      → ((i : ℕ) → bit bits i ≡ true → bit bits' i ≡ true)
      → check_seeds xxh3 seeds k bits ≡ true
      → check_seeds xxh3 seeds k bits' ≡ true
  unfolding check_seeds
  check_seeds_mono [] k bits bits' keep h = refl
  check_seeds_mono (seed ∷ seeds) k bits bits' keep h =
      ground (
        arith,
        keep (map_to_bitset (hash_key xxh3 k seed)),
        check_seeds_mono seeds k bits bits' keep,
      )

  check-add_seeds :
      (seeds : List ℕ) (k : Key) (bits : List Bool)
      → length bits ≡ bloom_filter_size
      → check_seeds xxh3 seeds k (add_seeds xxh3 seeds k bits) ≡ true
  unfolding check_seeds add_seeds
  check-add_seeds [] k bits long = refl
  check-add_seeds (seed ∷ seeds) k bits long =
      let i = map_to_bitset (hash_key xxh3 k seed) in
      let here =
        get_or-set_self bits i true false (rw long (map_to_bitset-lt (hash_key xxh3 k seed))) in
      rw (add_seeds-keep seeds k (set bits i true) i here)
        (check-add_seeds seeds k (set bits i true) (length-set bits i true ∙ long))

  -- Adding a key to a filter of nineteen bits keeps its size and makes the filter confirm the key.
  pub add_lem :
      (f : BloomFilter) (k : Key)
      → IsValid f
      → IsValid (add xxh3 f k) × (check_exist xxh3 (add xxh3 f k) k ≡ true)
  unfolding add check_exist
  add_lem f k valid =
      (length-add_seeds f.seeds k f.bitset ∙ valid, check-add_seeds f.seeds k f.bitset valid)

  -- Adding a key has the filter deny no key that it confirmed before.
  pub add_keep :
      (f : BloomFilter) (k q : Key)
      → check_exist xxh3 f q ≡ true
      → check_exist xxh3 (add xxh3 f k) q ≡ true
  unfolding add check_exist
  add_keep f k q =
      check_seeds_mono f.seeds q f.bitset (add_seeds xxh3 f.seeds k f.bitset)
        (add_seeds-keep f.seeds k f.bitset)

  -- A new filter has its nineteen bits and denies every key.
  pub new_lem :
      (seed₁ seed₂ : ℕ)
      → IsValid (new seed₁ seed₂) × ((q : Key) → check_exist xxh3 (new seed₁ seed₂) q ≡ false)
  unfolding new check_exist check_seeds
  new_lem seed₁ seed₂ = (
    refl,
    λ q. rw (get_or-replicate bloom_filter_size (map_to_bitset (hash_key xxh3 q seed₁)) false),
  )
