-- ===== src/Tests/Tables.antt =====
-- Applications of the theorems on the hash table.
use kvs_cash_machine.Common.{
  ℕ, zero, suc, ◌≡◌, ◌≢◌, inr, refl, sym, ap, ◌∙◌, Bool, true, ◌&&◌, Option, List, [], ◌∷◌,
  if◌then◌else◌, length, arith,
}
use kvs_cash_machine.Entry.{Entry, is_used}
use kvs_cash_machine.Key
use kvs_cash_machine.Key.{Key}
use kvs_cash_machine.Outcome.{ok, err, terminate}
use kvs_cash_machine.Probe.{find_next_by_predicate}
use kvs_cash_machine.Probe
use kvs_cash_machine.Probe.Table.{view, count_used}
use kvs_cash_machine.Ptr
use kvs_cash_machine.Ptr.{Ptr}
use kvs_cash_machine.StorageHashTable
use kvs_cash_machine.StorageHashTable.{
  StorageHashTable, with_size, locate, deref, assign, get, get_entries, put_nested, put_all,
  expand_with, put,
}
use kvs_cash_machine.StorageHashTable.Bytes.{serialize_to_byte_array, of_byte_array}
use kvs_cash_machine.StorageHashTable.Entries.{AreDistinct}
use kvs_cash_machine.StorageHashTable.Expand.{Filled, put_all-Filled, Doubled}
use kvs_cash_machine.StorageHashTable.Put.{Updated}
use kvs_cash_machine.StorageHashTable.Valid.{IsValid}
use kvs_cash_machine.Tests.{key, entry, one_hash}

start-IsValid : IsValid one_hash (with_size 1)
start-IsValid = (StorageHashTable.Valid.with_size-IsValid one_hash 1 (omega arith)).0

-- The table of one slot must grow.
put-Updated_example :
    (t' : StorageHashTable) × (put one_hash (with_size 1) (entry 3 0) ≡ ok t')
    × Updated one_hash (with_size 1) (entry 3 0) t'
unfolding with_size
put-Updated_example =
    StorageHashTable.Put.put-Updated one_hash (with_size 1) start-IsValid (entry 3 0) refl
      (inr (omega arith))

-- Entries under the keys from `n` down to 1, each with an index of its own.
abbrev numbered : ℕ → List Entry
numbered zero = []
numbered (suc n) = entry (suc n) n ∷ numbered n

distinct : List Entry → Bool
distinct [] = true
distinct (e ∷ es) = is_used e && Ptr.eq (view es e.key) Ptr.empty && distinct es

distinct-AreDistinct : (es : List Entry) → distinct es ≡ true → AreDistinct es
unfolding distinct
distinct-AreDistinct [] h = tt
distinct-AreDistinct (e ∷ es) h =
    (ground arith, ground arith, distinct-AreDistinct es (ground arith))

-- The entries of a table of 35 slots, all with the same hash.
abbrev many : List Entry
many = numbered 23

many-AreDistinct : AreDistinct many
unfolding distinct view Key.eq Key.memcmp_eq Key.load
many-AreDistinct = distinct-AreDistinct many refl

pub full :
    (t' : StorageHashTable) × (put_all one_hash (put_nested one_hash 0) (with_size 35) many ≡ ok t')
    × Filled one_hash (with_size 35) many t'
unfolding with_size
full =
    let start = StorageHashTable.Valid.with_size-IsValid one_hash 35 (omega arith) in
    put_all-Filled one_hash 0 many (with_size 35) start.0 many-AreDistinct
      (λ q _. rw (start.2 q) refl) (omega arith)

abbrev pub table : StorageHashTable
table = full.0

pub table-IsValid : IsValid one_hash table
table-IsValid = full.2.valid

pub table-length : length table.entries ≡ 35
unfolding with_size
table-length = full.2.size

pub table-used : table.used_size ≡ 23
unfolding with_size
table-used = full.2.used

table_view : view table.entries (key 3) ≡ record { raw = 130 }
unfolding view Key.eq Key.memcmp_eq Key.load
table_view = full.2.reads (key 3)

table-stored : view table.entries (key 3) ≢ Ptr.empty
table-stored e = omega (arith, ap Ptr.raw (sym table_view ∙ e))

table-absent : view table.entries (key 0) ≡ Ptr.empty
unfolding view Key.eq Key.memcmp_eq Key.load with_size
table-absent =
    full.2.reads (key 0)
    ∙ (StorageHashTable.Valid.with_size-IsValid one_hash 35 (omega arith)).2 (key 0)

put-terminate_example : put one_hash table (entry 0 23) ≡ err terminate
put-terminate_example =
    StorageHashTable.Put.put-terminate one_hash table table-IsValid (entry 0 23) refl
      (rw (table-absent, table-used, table-length) (omega arith)) (rw table-length (omega arith))

get-view_example : get one_hash table (key 3) ≡ ok (view table.entries (key 3))
get-view_example = StorageHashTable.Valid.get-view one_hash table table-IsValid (key 3)

assign_lem_example :
    (r : Option ℕ) × (locate one_hash table (key 3) ≡ ok r)
    × (deref table r ≡ view table.entries (key 3))
    × IsValid one_hash (assign table r (record { raw = 2 }))
    × ((q : Key)
        → view (assign table r (record { raw = 2 })).entries q
          ≡ (if Key.eq (key 3) q then record { raw = 2 } else view table.entries q))
    × ((assign table r (record { raw = 2 })).used_size ≡ table.used_size)
    × (length (assign table r (record { raw = 2 })).entries ≡ length table.entries)
assign_lem_example =
    StorageHashTable.Put.assign_lem one_hash table (key 3) (record { raw = 2 }) table-IsValid
      table-stored (λ e. omega (arith, ap Ptr.raw e))

get_entries_lem_example :
    ((k : Key) → view (get_entries table) k ≡ view table.entries k)
    × AreDistinct (get_entries table)
    × (length (get_entries table) ≡ count_used table.entries)
get_entries_lem_example =
    StorageHashTable.Entries.get_entries_lem one_hash table table-IsValid.probed

expand_with-Doubled_example :
    (t' : StorageHashTable) × (expand_with one_hash (put_nested one_hash 0) (with_size 1) ≡ ok t')
    × Doubled one_hash (with_size 1) t'
unfolding with_size
expand_with-Doubled_example =
    StorageHashTable.Expand.expand_with-Doubled one_hash 0 (with_size 1) start-IsValid.probed
      start-IsValid.counted (omega arith) (omega arith) (omega arith)

of_byte_array-serialize_example : of_byte_array (serialize_to_byte_array table) ≡ ok table
of_byte_array-serialize_example =
    StorageHashTable.Bytes.RoundTrip.of_byte_array-serialize table (rw table-used (omega arith))
      (rw table-length (omega arith))

find_next_by_predicate-IsNext_example :
    Probe.Search.IsNext many 20
      (λ e. Key.eq e.key (key 3))
      (find_next_by_predicate many 20 (λ e. Key.eq e.key (key 3)))
find_next_by_predicate-IsNext_example =
    Probe.Search.find_next_by_predicate-IsNext many 20 (λ e. Key.eq e.key (key 3)) (omega arith)
