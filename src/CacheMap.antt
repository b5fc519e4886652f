-- ===== src/CacheMap.antt =====
-- include/CacheMap.h and src/CacheMap.cpp: the table of recently used pointers, of a fixed size,
-- which gives up a random entry when it is too full.
pub mod Backward
pub mod Displace
pub mod Valid
pub mod Put
use kvs_cash_machine.Common.{
  ℕ, zero, suc, ◌+◌, ◌-◌, ◌%◌, Bool, true, false, not, ◌||◌, ◌==◌, Option, none, some, List,
  if◌then◌else◌, length, set, replicate,
}
use kvs_cash_machine.Constants.{is_overloaded}
use kvs_cash_machine.Entry.{Entry, blank, is_used}
use kvs_cash_machine.Key
use kvs_cash_machine.Key.{Key}
use kvs_cash_machine.Outcome.{Result, ok, err, division_by_zero, ◌>>=◌, ◌>>◌, assert, no_throw}
use kvs_cash_machine.Probe.{slot, find_next_by_predicate, seek}
use kvs_cash_machine.Ptr
use kvs_cash_machine.Ptr.{Ptr}

-- `class CacheMap`; `entries` is its `data`.
pub record CacheMap : Type 0 where
  pub entries : List Entry
  pub used_size : ℕ

-- `CacheMap::CacheMap(size_t)`
unfoldable pub with_size : ℕ → CacheMap
with_size size = record { entries = replicate size blank; used_size = 0 }

-- `CacheMap::clear`
unfoldable pub clear : CacheMap → CacheMap
clear m = record { entries = replicate (length m.entries) blank; used_size = 0 }

-- The lambda `emptyCheck` of `putOrDisplace`.
abbrev pub empty_check : Entry → Bool
empty_check e = Ptr.eq e.ptr Ptr.empty

-- The lambda `entryCheck` of `putOrDisplace`, and the one of `get`.
abbrev pub entry_check : Key → Entry → Bool
entry_check k e = Key.eq e.key k || Ptr.eq e.ptr Ptr.empty

-- The index before `i`, going round a table of size `n`.
unfoldable pub previous : ℕ → ℕ → ℕ
previous n i = if i == 0 then n - 1 else i - 1

-- The loop that looks backwards for a used slot, from the index `i` on; `from` if there is none. At
-- index 0 the code sets `i` to the size, and then decrements it. The first argument bounds the
-- rounds.
unfoldable pub back_from : ℕ → List Entry → ℕ → ℕ → ℕ
unfolding previous
back_from zero entries from i = from
back_from (suc fuel) entries from i =
    let rest = back_from fuel entries from (if i == 0 then length entries - 1 else i - 1) in
    if i == from then from else if not (empty_check (slot entries i)) then i else rest

-- The slot to give up, for a random slot: the last one of the run of used slots that the random
-- slot is in or behind.
unfoldable pub victim : List Entry → ℕ → Result ℕ
victim entries random_index =
    let next = find_next_by_predicate entries random_index empty_check in
    let last =
      back_from (length entries) entries random_index (previous (length entries) random_index) in
    if not (empty_check (slot entries random_index))
    then (assert (not (next == random_index)) >> ok (previous (length entries) next))
    else (assert (not (last == random_index)) >> ok last)

-- The body of the first `if` of `putOrDisplace`: an entry is taken out.
unfoldable pub displace : CacheMap → ℕ → Result (Option Entry × CacheMap)
displace m random = do
  found_index ← victim m.entries (random % length m.entries)
  let found = slot m.entries found_index
  assert (not (empty_check found))
  ok (some found, record { entries = set m.entries found_index blank; used_size = m.used_size - 1 })

-- A write through the reference.
unfoldable pub assign : CacheMap → ℕ → Ptr → CacheMap
assign m i p = record m {
  entries = set m.entries i (record { key = (slot m.entries i).key; ptr = p });
}

module _ (hash : Key → ℕ) where
  -- `hashKey(key) % data.size()`
  unfoldable pub key_index : CacheMap → Key → Result ℕ
  key_index m k =
      if length m.entries == 0 then err division_by_zero else ok (hash k % length m.entries)

  -- The rest of `putOrDisplace`: the entry is written.
  unfoldable pub put_at : CacheMap → ℕ → Entry → Result CacheMap
  put_at m h e = do
    index ← seek m.entries h (entry_check e.key)
    ok (record {
      entries = set m.entries index e;
      used_size =
          if Ptr.eq (slot m.entries index).ptr Ptr.empty then m.used_size + 1 else m.used_size;
    })

  -- `CacheMap::putOrDisplace`; `random` is the number that `distr(gen)` gives.
  unfoldable pub put_or_displace : CacheMap → ℕ → Entry → Result (Option Entry × CacheMap)
  put_or_displace m random e = no_throw (do
    h ← key_index m e.key
    (displaced, m') ←
        if is_overloaded m.used_size (length m.entries) then displace m random else ok (none, m)
    m'' ← put_at m' h e
    ok (displaced, m''))

  -- The slot whose pointer `get` returns a reference to.
  unfoldable pub locate : CacheMap → Key → Result ℕ
  unfolding key_index
  locate m k = do
    h ← key_index m k
    let found = find_next_by_predicate m.entries h (entry_check k)
    if Key.eq (slot m.entries h).key k then ok h else (assert (not (found == h)) >> ok found)

  -- `CacheMap::get`
  unfoldable pub get : CacheMap → Key → Result Ptr
  unfolding locate
  get m k = do i ← locate m k; ok (slot m.entries i).ptr
