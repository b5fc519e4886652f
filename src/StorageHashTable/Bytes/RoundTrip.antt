-- ===== src/StorageHashTable/Bytes/RoundTrip.antt =====
-- A table survives its byte format.
use kvs_cash_machine.ByteArray.{ByteArray}
use kvs_cash_machine.Common.{
  ℕ, zero, suc, ◌+◌, ◌-◌, ◌*◌, ◌/◌, ◌%◌, ◌^◌, ◌≤◌, ◌<◌, ◌≡◌, refl, ap, false, ltb, List, [], ◌∷◌,
  ◌++◌, length, get_or, drop, length-append, drop-append, arith,
}
use mathlib.Core.List.{append_assoc}
use native.Mathlib.Nat.{pow-suc}
use kvs_cash_machine.Constants.{key_size, sizeof_size_t, size_t_mod, vector_max_size}
use kvs_cash_machine.Entry.{Entry}
use kvs_cash_machine.Key
use kvs_cash_machine.Key.Laws.{length-store, load-store}
use kvs_cash_machine.Outcome.{ok}
use kvs_cash_machine.StorageHashTable.{StorageHashTable}
use kvs_cash_machine.StorageHashTable.Bytes.{
  store_number, load_number, store_entries, load_entries, serialize_to_byte_array, of_byte_array,
  entry_size,
}

length-store_number : (n x : ℕ) → length (store_number n x) ≡ n
unfolding store_number
length-store_number zero x = refl
length-store_number (suc n) x = ap suc (length-store_number n (x / 256))

load-store_number : (n x : ℕ) → x < 256 ^ n → load_number n (store_number n x) ≡ x
unfolding load_number store_number
load-store_number zero x h = omega arith
load-store_number (suc n) x h =
    omega (arith, load-store_number n (x / 256) (omega (arith, pow-suc 256 n)))

length-store_entries : (es : List Entry) → length (store_entries es) ≡ length es * entry_size
unfolding store_entries
length-store_entries [] = refl
length-store_entries (e ∷ es) = omega (
  arith,
  length-append (Key.store e.key.bytes) (e.ptr.raw ∷ store_entries es),
  length-store e.key.bytes,
  length-store_entries es,
)

get_or-append :
    (xs : ByteArray) (y : ℕ) (ys : ByteArray) (n d : ℕ)
    → length xs ≡ n
    → get_or (xs ++ y ∷ ys) n d ≡ y
get_or-append [] y ys n d e = rw (← e)
get_or-append (x ∷ xs) y ys n d e = rw (← e) (get_or-append xs y ys (length xs) d refl)

drop-suc :
    (xs : ByteArray) (y : ℕ) (ys : ByteArray) (n : ℕ)
    → length xs ≡ n
    → drop (suc n) (xs ++ y ∷ ys) ≡ ys
drop-suc [] y ys n e = rw (← e)
drop-suc (x ∷ xs) y ys n e = rw (← e) (drop-suc xs y ys (length xs) refl)

load-store_entries :
    (es : List Entry) (rest : ByteArray) → load_entries (length es) (store_entries es ++ rest) ≡ es
unfolding load_entries store_entries
load-store_entries [] rest = refl
load-store_entries (e ∷ es) rest =
    let key = Key.store e.key.bytes in
    let raw = e.ptr.raw in
    let more = store_entries es ++ rest in
    let long = length-store e.key.bytes in
    rw (
      append_assoc key (raw ∷ store_entries es) rest,
      load-store e.key.bytes (raw ∷ more),
      get_or-append key raw more key_size 0 long,
      drop-suc key raw more key_size long,
      load-store_entries es rest,
    )

-- Reading back what a table was written as gives the table, if its number of used slots fits a
-- `size_t` and a vector can have its size.
pub of_byte_array-serialize :
    (t : StorageHashTable)
    → t.used_size < size_t_mod
    → length t.entries ≤ vector_max_size
    → of_byte_array (serialize_to_byte_array t) ≡ ok t
unfolding of_byte_array serialize_to_byte_array
of_byte_array-serialize t fits small =
    let n = length t.entries in
    let body = store_entries t.entries in
    let number = store_number sizeof_size_t t.used_size in
    let long : length body ≡ n * 17 = length-store_entries t.entries in
    let without : (length (body ++ number) + size_t_mod - sizeof_size_t) % size_t_mod ≡ n * 17 =
      omega (arith, length-append body number, length-store_number sizeof_size_t t.used_size) in
    let whole : n * 17 % 17 ≡ 0 = omega arith in
    let count : n * 17 / 17 ≡ n = omega arith in
    let few : ltb vector_max_size n ≡ false = ground arith in
    let behind : drop (n * 17) (body ++ number) ≡ number = rw (← long) (drop-append body number) in
    rw (
      without,
      whole,
      count,
      few,
      behind,
      load-store_entries t.entries number,
      load-store_number sizeof_size_t t.used_size fits,
    )
