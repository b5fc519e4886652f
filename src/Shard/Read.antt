-- ===== src/Shard/Read.antt =====
-- `readValue` and `readValueDirectly` of src/Shard.cpp on a valid shard.
use kvs_cash_machine.BloomFilter
use kvs_cash_machine.ByteArray.{ByteArray}
use kvs_cash_machine.Common.{ℕ, ◌%◌, ◌≡◌, ◌≢◌, sym, ap, Bool-cases, inl, inr, none, arith, part}
use kvs_cash_machine.Constants.{value_size}
use kvs_cash_machine.Entry.{Entry}
use kvs_cash_machine.Key.{Key}
use kvs_cash_machine.Outcome.{ok}
use kvs_cash_machine.Probe.Table.{view}
use kvs_cash_machine.Ptr
use kvs_cash_machine.Ptr.{Ptr, present, deleted, empty_ptr}
use kvs_cash_machine.Shard.Blocks.{block}
use kvs_cash_machine.Shard.Directly.{read_value_directly}
use kvs_cash_machine.Shard.Files.{read_value_directly_lem}
use kvs_cash_machine.Shard.Methods.{read_value, read_by_type}
use kvs_cash_machine.Shard.Sound.{
  raw, contents, view_empty, contents_low, contents_high, entry-cases, offset-le,
}
use kvs_cash_machine.Shard.Valid.{Holds, load_table_holds, denied-empty}
use kvs_cash_machine.Shard.{State, hash}
use kvs_cash_machine.StorageHashTable.Valid.{get-view}
use kvs_cash_machine.StorageHashTable.{StorageHashTable}

module _ (xxh3 : ByteArray → ℕ → ℕ) (i : ℕ) (s : State) (t : StorageHashTable) (v : ByteArray)
    (h : Holds xxh3 i s t v) where
  pub read_directly-block :
      (k : Key)
      → raw t k ≢ 127
      → read_value_directly i (view t.entries k) s.disk
        ≡ (ok (record { bytes = block (raw t k % 128) v }), s.disk)
  read_directly-block k ne =
      let (offset, inside) = offset-le xxh3 t v h.sound k ne in
      rw (read_value_directly_lem i s.disk v h.values_file (view t.entries k) (rw offset inside))
        (ap (λ o. (ok (record { bytes = part o value_size v }), s.disk)) offset)

  entry_of : Key → Entry
  entry_of k = record { key = k; ptr = view t.entries k }

  read_found :
      (k : Key)
      → read_by_type xxh3 i k (view t.entries k) (Ptr.get_type (view t.entries k)) s.disk
        ≡ (ok (record { key = k; ptr = view t.entries k }, contents t v k), s.disk)
  unfolding read_by_type contents
  read_found k = elim (entry-cases xxh3 t v h.sound k) [
    | inl (e, type) ↦
        rw (type, contents_low t v k (omega arith))
          (ap (λ p. (ok (record { key = k; ptr = p }, none), s.disk)) (sym (view_empty t v k e)))
    | inr (inl (low, type)) ↦ rw (type, contents_low t v k (omega arith))
    | inr (inr (high, type)) ↦
        rw (type, contents_high t v k high) (rw (read_directly-block k (omega arith)))
  ]

  -- `readValue` on a valid shard does not fail and changes nothing: it returns the key with the
  -- pointer that the table has for it, EMPTY_PTR if none, and the value that the shard as a map has.
  pub read_value-contents :
      (k : Key)
      → read_value xxh3 i k s ≡ (ok (record { key = k; ptr = view t.entries k }, contents t v k), s)
  unfolding read_value
  read_value-contents k = elim (Bool-cases (BloomFilter.check_exist xxh3 s.shard.filter k)) [
    | inl maybe ↦
        rw (maybe, load_table_holds xxh3 i s t v h)
          (rw (get-view (hash xxh3) t h.table k) (rw (read_found k)))
    | inr denied ↦
        let e = denied-empty xxh3 i s t v h k denied in
        rw (denied, contents_low t v k (omega (arith, ap Ptr.raw e)))
          (ap (λ p. (ok (record { key = k; ptr = p }, none), s)) (sym e))
  ]
