-- ===== src/Tests/Caches.antt =====
-- Applications of the theorems on the cache map.
use kvs_cash_machine.CacheMap
use kvs_cash_machine.CacheMap.{
  CacheMap, with_size, clear, displace, put_or_displace, locate, assign, get,
}
use kvs_cash_machine.CacheMap.Displace.{Displaced}
use kvs_cash_machine.CacheMap.Put.{Put}
use kvs_cash_machine.CacheMap.Valid.{IsValid}
use kvs_cash_machine.Common.{ℕ, ◌≡◌, ◌≢◌, refl, sym, ap, ◌∙◌, Option, some, if◌then◌else◌, arith}
use kvs_cash_machine.Entry.{Entry}
use kvs_cash_machine.Key
use kvs_cash_machine.Key.{Key}
use kvs_cash_machine.Outcome.{ok}
use kvs_cash_machine.Probe.Table.{view}
use kvs_cash_machine.Ptr
use kvs_cash_machine.Ptr.{Ptr}
use kvs_cash_machine.Tests.Tables.{table, table-IsValid, table-length, table-used}
use kvs_cash_machine.Tests.{key, entry, one_hash}

start-IsValid : IsValid one_hash (with_size 9)
start-IsValid = (CacheMap.Valid.map_with_size-IsValid one_hash 9 (omega arith)).0

-- The map after a first entry was put into it.
stored :
    (displaced : Option Entry) × (m' : CacheMap) × (put_or_displace one_hash
        (with_size 9)
        4
        (entry 3 0)
      ≡ ok (displaced, m'))
    × Put one_hash (with_size 9) (entry 3 0) displaced m'
stored = CacheMap.Put.put_or_displace-Put one_hash (with_size 9) start-IsValid (entry 3 0) refl 4

abbrev map : CacheMap
map = stored.1

map-IsValid : IsValid one_hash map
map-IsValid = stored.3.valid

map_view : view map.entries (key 3) ≡ record { raw = 128 }
unfolding Key.eq Key.memcmp_eq Key.load
map_view = stored.3.reads (key 3)

map-stored : view map.entries (key 3) ≢ Ptr.empty
map-stored e = omega (arith, ap Ptr.raw (sym map_view ∙ e))

put_or_displace-Put_example :
    (displaced : Option Entry) × (m' : CacheMap) × (put_or_displace one_hash map 4 (entry 5 1)
      ≡ ok (displaced, m'))
    × Put one_hash map (entry 5 1) displaced m'
put_or_displace-Put_example =
    CacheMap.Put.put_or_displace-Put one_hash map map-IsValid (entry 5 1) refl 4

map_get-view_example : get one_hash map (key 3) ≡ ok (view map.entries (key 3))
map_get-view_example = CacheMap.Valid.map_get-view one_hash map map-IsValid (key 3)

map_assign_lem_example :
    (i : ℕ) × (locate one_hash map (key 3) ≡ ok i)
    × IsValid one_hash (assign map i (record { raw = 2 }))
    × ((q : Key)
        → view (assign map i (record { raw = 2 })).entries q
          ≡ (if Key.eq (key 3) q then record { raw = 2 } else view map.entries q))
map_assign_lem_example =
    CacheMap.Put.map_assign_lem one_hash map map-IsValid (key 3) (record { raw = 2 }) map-stored
      (λ e. omega (arith, ap Ptr.raw e))

-- A map with the 23 entries of the table that the other tests are on.
abbrev crowd : CacheMap
crowd = record { entries = table.entries; used_size = table.used_size }

displace-Displaced_example :
    (d : Entry) × (m' : CacheMap) × (displace crowd 40 ≡ ok (some d, m'))
    × Displaced one_hash crowd d m'
displace-Displaced_example =
    CacheMap.Displace.displace-Displaced one_hash crowd 40 table-IsValid.probed
      table-IsValid.counted (rw table-used (omega arith))
      (rw (table-used, table-length) (omega arith))
