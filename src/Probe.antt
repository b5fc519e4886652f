-- ===== src/Probe.antt =====
-- Linear probing, which src/CacheMap.cpp and src/StorageHashTable.cpp share: both hold a copy of
-- `findNextByPredicate`, and keep their entries by it.
pub mod Distance
pub mod Search
pub mod Table
pub mod Writes
pub mod Count
pub mod Seek
use kvs_cash_machine.Common.{
  ℕ, zero, suc, ◌+◌, ◌-◌, ◌%◌, Bool, not, List, ◌==◌, if◌then◌else◌, length, get_or,
}
use kvs_cash_machine.Entry.{Entry, blank}
use kvs_cash_machine.Outcome.{Result, ok, ◌>>◌, assert}

-- `data[i]`. An index out of range, which no caller has, gives a blank entry.
abbrev pub slot : List Entry → ℕ → Entry
slot entries i = get_or entries i blank

-- The `for` loop, from the index `i` on. The first argument bounds the rounds.
unfoldable pub next_from : ℕ → List Entry → ℕ → (Entry → Bool) → ℕ → ℕ
next_from zero entries from p i = from
next_from (suc fuel) entries from p i =
    let rest = next_from fuel entries from p ((i + 1) % length entries) in
    if i == from then from else if p (slot entries i) then i else rest

-- `findNextByPredicate`
unfoldable pub find_next_by_predicate : List Entry → ℕ → (Entry → Bool) → ℕ
unfolding next_from
find_next_by_predicate entries from p =
    next_from (length entries) entries from p (if from == length entries - 1 then 0 else from + 1)

-- The slot from `h` on that meets the predicate, as both `put`s look for it: at `h`, and then by
-- `findNextByPredicate`, whose success is asserted.
unfoldable pub seek : List Entry → ℕ → (Entry → Bool) → Result ℕ
seek entries h p =
    let index = find_next_by_predicate entries h p in
    if p (slot entries h) then ok h else (assert (not (h == index)) >> ok index)
