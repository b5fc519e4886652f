-- ===== src/Constants.antt =====
-- The constants of include/KeyValueTypes.h, and the arithmetic of its `double` factors.
--
-- A product with a factor of 1.5, 0.5 or 2 is exact in a `double` for every size that occurs, so
-- the comparisons are written over ℕ with the factor's denominator multiplied out.
use kvs_cash_machine.Common.{ℕ, ◌-◌, ◌*◌, ◌/◌, ◌^◌, Bool, ltb}

abbrev pub value_size : ℕ
value_size = 2048

abbrev pub key_size : ℕ
key_size = 16

-- `sizeof(ptr_t)` and `sizeof(size_t)`
abbrev pub sizeof_ptr_t : ℕ
sizeof_ptr_t = 1

abbrev pub sizeof_size_t : ℕ
sizeof_size_t = 8

abbrev pub size_t_mod : ℕ
size_t_mod = 2 ^ 64

-- `std::vector<Entry>::max_size()`: PTRDIFF_MAX / sizeof(Entry), an entry being a string of 32 bytes
-- and a byte, aligned to 8.
abbrev pub vector_max_size : ℕ
vector_max_size = (2 ^ 63 - 1) / 40

abbrev pub cache_map_size : ℕ
cache_map_size = 5000

abbrev pub shard_number : ℕ
shard_number = 4981

abbrev pub bloom_filter_size : ℕ
bloom_filter_size = 19

abbrev pub bloom_filter_hash_functions_number : ℕ
bloom_filter_hash_functions_number = 2

abbrev pub shard_expected_size : ℕ
shard_expected_size = 23

-- `SHARD_EXPECTED_SIZE * STORAGE_HASH_TABLE_LOAD_FACTOR`, truncated to `size_t`
abbrev pub storage_hash_table_initial_size : ℕ
storage_hash_table_initial_size = shard_expected_size * 3 / 2

abbrev pub storage_hash_table_max_size : ℕ
storage_hash_table_max_size = 2 * storage_hash_table_initial_size

-- `usedSize * MAP_LOAD_FACTOR > data.size()`
abbrev pub is_overloaded : ℕ → ℕ → Bool
is_overloaded used size = ltb (2 * size) (3 * used)
