-- ===== src/StorageHashTable/Bytes.antt =====
-- The byte format of the table: `serializeToByteArray` and the constructor that reads it back, of
-- src/StorageHashTable.cpp. An entry is the key's bytes and the pointer's byte; `usedSize` follows,
-- lowest byte first, as the machine stores it.
pub mod RoundTrip
use kvs_cash_machine.ByteArray.{ByteArray}
use kvs_cash_machine.Common.{
  ℕ, zero, suc, ◌+◌, ◌-◌, ◌*◌, ◌/◌, ◌%◌, ◌^◌, ◌≤◌, ◌<◌, ◌≡◌, refl, ap, ◌∙◌, sym, Bool, true, false,
  not, ◌==◌, ltb, List, [], ◌∷◌, ◌++◌, if◌then◌else◌, length, get_or, take, drop, length-append,
  arith,
}
use kvs_cash_machine.Constants.{key_size, sizeof_ptr_t, sizeof_size_t, size_t_mod, vector_max_size}
use kvs_cash_machine.Entry.{Entry}
use kvs_cash_machine.Key
use kvs_cash_machine.Key.Laws.{length-store, load-store}
use kvs_cash_machine.Outcome.{
  Result, ok, err, kvs_exception, length_error, storage_hash_table_invalid_build_data,
}
use kvs_cash_machine.Ptr
use kvs_cash_machine.StorageHashTable.{StorageHashTable}

-- The bytes of a `size_t`, the first `n` of them.
unfoldable pub store_number : ℕ → ℕ → ByteArray
store_number zero x = []
store_number (suc n) x = (x % 256) ∷ store_number n (x / 256)

-- `memcpy` of the first `n` bytes of an array into a `size_t`.
unfoldable pub load_number : ℕ → ByteArray → ℕ
load_number zero a = 0
load_number (suc n) [] = 0
load_number (suc n) (x ∷ a) = x + 256 * load_number n a

abbrev pub entry_size : ℕ
entry_size = key_size + sizeof_ptr_t

-- The loop of `serializeToByteArray`. It fills the array from the start, an entry after the other.
unfoldable pub store_entries : List Entry → ByteArray
store_entries [] = []
store_entries (e ∷ es) = Key.store e.key.bytes ++ Ptr.get_raw e.ptr ∷ store_entries es

-- `StorageHashTable::serializeToByteArray`
unfoldable pub serialize_to_byte_array : StorageHashTable → ByteArray
serialize_to_byte_array t = store_entries t.entries ++ store_number sizeof_size_t t.used_size

-- The loop of the constructor: that many entries, from the start of the array.
unfoldable pub load_entries : ℕ → ByteArray → List Entry
load_entries zero a = []
load_entries (suc n) a =
    record { key = record { bytes = Key.load key_size a }; ptr = Ptr.of_raw (get_or a key_size 0) }
    ∷ load_entries n (drop entry_size a)

-- `StorageHashTable::StorageHashTable(ByteArray)`. The subtraction wraps, and `resize` throws what
-- a vector throws for more elements than it can have.
unfoldable pub of_byte_array : ByteArray → Result StorageHashTable
of_byte_array a =
    let without_used_size = (length a + size_t_mod - sizeof_size_t) % size_t_mod in
    let count = without_used_size / entry_size in
    let table : StorageHashTable = record {
      entries = load_entries count a;
      used_size = load_number sizeof_size_t (drop without_used_size a);
    } in
    if not (without_used_size % entry_size == 0)
    then err (kvs_exception storage_hash_table_invalid_build_data)
    else if ltb vector_max_size count
    then err length_error
    else ok table
