-- ===== src/Tests/Files.antt =====
-- Applications of the theorems on the filter, the files, the pointers and the keys.
use kvs_cash_machine.BloomFilter
use kvs_cash_machine.BloomFilter.{BloomFilter}
use kvs_cash_machine.Common.{
  ◌*◌, ◌==◌, ◌≡◌, ◌≢◌, ◌↔◌, inl, refl, true, false, some, none, [], ◌∷◌, if◌then◌else◌, arith,
}
use kvs_cash_machine.Constants.{value_size}
use kvs_cash_machine.Disk.{values, index, directory, path_eq, Disk}
use kvs_cash_machine.Key
use kvs_cash_machine.Key.{Key}
use kvs_cash_machine.Outcome.{ok}
use kvs_cash_machine.Ptr
use kvs_cash_machine.Ptr.{
  Ptr, present, deleted, set_value_present, get_index, get_type, of_offset, get_offset,
}
use kvs_cash_machine.Storage
use kvs_cash_machine.Storage.{Storage, overwrite, append, write, read, read_file, write_file}
use kvs_cash_machine.Storage.Laws.{IsOpen}
use kvs_cash_machine.Tests.{key, sum_hash}

abbrev filter : BloomFilter
filter = BloomFilter.new 1 2

filter-IsValid : BloomFilter.Laws.IsValid sum_hash filter
filter-IsValid = (BloomFilter.Laws.new_lem sum_hash 1 2).0

add_lem_example :
    BloomFilter.Laws.IsValid sum_hash (BloomFilter.add sum_hash filter (key 3))
    × (BloomFilter.check_exist sum_hash (BloomFilter.add sum_hash filter (key 3)) (key 3) ≡ true)
add_lem_example = BloomFilter.Laws.add_lem sum_hash filter (key 3) filter-IsValid

-- A disk with the directory of shard 4 and a file of three bytes in it.
abbrev disk : Disk
disk = record {
  file = λ p. if path_eq (values 4) p then some (1 ∷ 2 ∷ 3 ∷ []) else none;
  has_directory = λ i. i == 4;
  denied = λ i. false;
}

abbrev file : Storage
file = record { path = values 4; file_size = 3 }

file-IsOpen : IsOpen file disk (1 ∷ 2 ∷ 3 ∷ [])
unfolding path_eq
file-IsOpen = record { holds = refl; size = refl }

values≢index : values 4 ≢ index 4
values≢index e = cc

read_file-write_file_example :
    (d' : Disk) × (write_file (values 4) (9 ∷ 8 ∷ []) disk ≡ (ok tt, d'))
    × (read_file (values 4) d' ≡ (ok (9 ∷ 8 ∷ []), d'))
    × (d'.file (index 4) ≡ disk.file (index 4))
unfolding directory
read_file-write_file_example =
    Storage.Laws.read_file-write_file (values 4) (9 ∷ 8 ∷ []) disk refl (index 4) values≢index

append_lem_example :
    (s' : Storage) × (d' : Disk) × (append file (9 ∷ 8 ∷ []) disk ≡ (ok (3, s'), d'))
    × IsOpen s' d' (1 ∷ 2 ∷ 3 ∷ 9 ∷ 8 ∷ [])
    × (read s' 3 2 d' ≡ (ok (9 ∷ 8 ∷ []), d'))
    × (read s' 1 2 d' ≡ (ok (2 ∷ 3 ∷ []), d'))
    × (d'.file (index 4) ≡ disk.file (index 4))
append_lem_example =
    Storage.Laws.append_lem file disk (1 ∷ 2 ∷ 3 ∷ []) file-IsOpen (9 ∷ 8 ∷ []) 1 2 (omega arith)
      (index 4) values≢index

write_lem_example :
    (s' : Storage) × (d' : Disk) × (write file 5 (9 ∷ []) disk ≡ (ok s', d'))
    × IsOpen s' d' (overwrite (1 ∷ 2 ∷ 3 ∷ []) 5 (9 ∷ []))
    × (read s' 5 1 d' ≡ (ok (9 ∷ []), d'))
    × (read s' 1 2 d' ≡ (ok (2 ∷ 3 ∷ []), d'))
    × (d'.file (index 4) ≡ disk.file (index 4))
write_lem_example =
    Storage.Laws.write_lem file disk (1 ∷ 2 ∷ 3 ∷ []) file-IsOpen 5 (9 ∷ []) (omega arith) 1 2
      (omega arith) (inl (omega arith)) (index 4) values≢index

write_nothing_example :
    (s' : Storage) × (d' : Disk) × (write file 5 [] disk ≡ (ok s', d'))
    × (d'.file (values 4) ≡ some (1 ∷ 2 ∷ 3 ∷ []))
    × (s'.file_size ≡ 5)
write_nothing_example =
    Storage.Laws.write_nothing file disk (1 ∷ 2 ∷ 3 ∷ []) file-IsOpen 5 (omega arith)

of_offset_lem_example :
    (p : Ptr) × (of_offset (5 * value_size) true ≡ ok p)
    × (get_index p ≡ 5)
    × (get_offset p ≡ 5 * value_size)
    × (get_type p ≡ present)
of_offset_lem_example = Ptr.Laws.of_offset_lem 5 true (omega arith)

set_value_present_lem_example :
    (q : Ptr) × (set_value_present (record { raw = 133 }) false ≡ ok q)
    × (get_index q ≡ get_index (record { raw = 133 }))
    × (get_type q ≡ deleted)
set_value_present_lem_example =
    Ptr.Laws.set_value_present_lem (record { raw = 133 }) false (omega arith)
      (omega (arith, Ptr.Laws.get_index_lem (record { raw = 133 }) (omega arith)))

eq_iff_example : (Key.eq (key 3) (key 4) ≡ true) ↔ (key 3 ≡ key 4)
eq_iff_example = Key.Laws.eq_iff (key 3) (key 4)
