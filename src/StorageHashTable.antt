-- ===== src/StorageHashTable.antt =====
-- include/StorageHashTable.h and src/StorageHashTable.cpp: the hash table of a shard, with open
-- addressing, that doubles when two thirds full.
pub mod Bytes
pub mod Valid
pub mod Insert
pub mod Entries
pub mod Number
pub mod Keys
pub mod Expand
pub mod Put
use kvs_cash_machine.Common.{
  ℕ, zero, suc, ◌+◌, ◌*◌, ◌%◌, Bool, true, false, not, ◌||◌, ◌==◌, ltb, Option, none, some, List,
  [], ◌∷◌, if◌then◌else◌, length, set, replicate,
}
use kvs_cash_machine.ByteArray.{ByteArray}
use kvs_cash_machine.Constants.{storage_hash_table_max_size, is_overloaded}
use kvs_cash_machine.Entry.{Entry, blank, is_used}
use kvs_cash_machine.Key
use kvs_cash_machine.Key.{Key}
use kvs_cash_machine.Outcome.{
  Result, ok, err, kvs_exception, shard_overflow, division_by_zero, out_of_fuel, ◌>>=◌, ◌>>◌,
  assert, no_throw,
}
use kvs_cash_machine.Probe.{slot, find_next_by_predicate, seek}
use kvs_cash_machine.Ptr
use kvs_cash_machine.Ptr.{Ptr}

-- `class StorageHashTable`; `entries` is its `data`.
pub record StorageHashTable : Type 0 where
  pub entries : List Entry
  pub used_size : ℕ

-- `StorageHashTable::StorageHashTable(size_t)`
unfoldable pub with_size : ℕ → StorageHashTable
with_size size = record { entries = replicate size blank; used_size = 0 }

-- The loop of `getEntries`.
unfoldable pub used_entries : List Entry → List Entry
used_entries [] = []
used_entries (e ∷ es) =
    if is_used e then record { key = e.key; ptr = e.ptr } ∷ used_entries es else used_entries es

-- `StorageHashTable::getEntries`
unfoldable pub get_entries : StorageHashTable → List Entry
unfolding used_entries
get_entries t = used_entries t.entries

-- The lambda `entryCheck` of `put`.
abbrev pub entry_check : Key → Entry → Bool
entry_check k e = Ptr.eq e.ptr Ptr.empty || Key.eq e.key k

-- What the reference that `get` returns reads; `none` stands for the static `EMPTY_PTR`.
unfoldable pub deref : StorageHashTable → Option ℕ → Ptr
deref t none = Ptr.empty
deref t (some i) = (slot t.entries i).ptr

-- A write through the reference. No caller writes through one to the static `EMPTY_PTR`.
unfoldable pub assign : StorageHashTable → Option ℕ → Ptr → StorageHashTable
assign t none p = t
assign t (some i) p = record t {
  entries = set t.entries i (record { key = (slot t.entries i).key; ptr = p });
}

module _ (hash : Key → ℕ) where
  -- `hashKey(key) % data.size()`
  unfoldable pub key_index : StorageHashTable → Key → Result ℕ
  key_index t k =
      if length t.entries == 0 then err division_by_zero else ok (hash k % length t.entries)

  -- The slot whose pointer `get` returns a reference to; `none` for the static `EMPTY_PTR`.
  unfoldable pub locate : StorageHashTable → Key → Result (Option ℕ)
  unfolding key_index
  locate t k = do
    h ← key_index t k
    let index = find_next_by_predicate t.entries h (λ e. Key.eq e.key k)
    ok (if Key.eq (slot t.entries h).key k then some h else if index == h then none else some index)

  -- `StorageHashTable::get`
  unfoldable pub get : StorageHashTable → Key → Result Ptr
  unfolding locate deref
  get t k = do r ← locate t k; ok (deref t r)

  -- The body of `put`, but for its call of `expand`.
  unfoldable pub put_with :
      (StorageHashTable → Result StorageHashTable)
      → StorageHashTable
      → Entry
      → Result StorageHashTable
  unfolding key_index
  put_with expand t e = do
    h ← key_index t e.key
    index ← seek t.entries h (entry_check e.key)
    let used = if Ptr.eq (slot t.entries index).ptr Ptr.empty then t.used_size + 1 else t.used_size
    let t' : StorageHashTable = record { entries = set t.entries index e; used_size = used }
    if is_overloaded used (length t.entries) then expand t' else ok t'

  -- The loop of `expand`, over the `put` that it calls.
  unfoldable pub put_all :
      (StorageHashTable → Entry → Result StorageHashTable)
      → StorageHashTable
      → List Entry
      → Result StorageHashTable
  put_all put t [] = ok t
  put_all put t (e ∷ es) = do t' ← put t e; put_all put t' es

  -- `StorageHashTable::expand`
  unfoldable pub expand_with :
      (StorageHashTable → Entry → Result StorageHashTable)
      → StorageHashTable
      → Result StorageHashTable
  unfolding put_all get_entries
  expand_with put t =
      let new_size = length t.entries * 2 in
      let rest =
        put_all put (record { entries = replicate new_size blank; used_size = 0 })
          (get_entries t) in
      if ltb storage_hash_table_max_size new_size then err (kvs_exception shard_overflow) else rest

  -- `put` and `expand` call each other. The first argument bounds how often a `put` is nested in
  -- an `expand`.
  unfoldable pub put_nested : ℕ → StorageHashTable → Entry → Result StorageHashTable
  unfolding put_with expand_with no_throw
  put_nested zero t e = no_throw (put_with (λ _. err out_of_fuel) t e)
  put_nested (suc n) t e = no_throw (put_with (expand_with (put_nested n)) t e)

  -- `StorageHashTable::put`. A table of one slot or more can double at most six times before it is
  -- larger than STORAGE_HASH_TABLE_MAX_SIZE, which is 68.
  unfoldable pub put : StorageHashTable → Entry → Result StorageHashTable
  put = put_nested 7
