-- ===== src/StorageHashTable/Insert.antt =====
-- The write of `put`, before it looks whether the table has to grow.
use kvs_cash_machine.Common.{ℕ, ◌+◌, ◌≡◌, true, not, if◌then◌else◌, length, set, arith}
use kvs_cash_machine.Constants.{is_overloaded}
use kvs_cash_machine.Entry.{Entry, is_used}
use kvs_cash_machine.Key.{Key}
use kvs_cash_machine.Outcome.{Result, ok}
use kvs_cash_machine.Probe.{slot, seek}
use kvs_cash_machine.Probe.Seek.{is_absent, seek-Wrote}
use kvs_cash_machine.Probe.Table.{count_used, home}
use kvs_cash_machine.Probe.Writes.{Wrote}
use kvs_cash_machine.Ptr
use kvs_cash_machine.StorageHashTable.{StorageHashTable, entry_check, put_with}
use kvs_cash_machine.StorageHashTable.Valid.{IsValid, key_index-home}

-- `t'` is `t` with the entry `e` written, and counted if its key is new.
pub record Inserted (hash : Key → ℕ) (t : StorageHashTable) (e : Entry) (t' : StorageHashTable)
    : Type 0 where
  pub wrote : Wrote hash t.entries e.key e.ptr t'.entries
  pub counted : t'.used_size ≡ count_used t'.entries
  pub used : t'.used_size ≡ t.used_size + (if is_absent t.entries e.key then 1 else 0)

module _ (hash : Key → ℕ) (t : StorageHashTable) (valid : IsValid hash t) where
  -- `put` does not fail before it calls `expand`, which it does when more than two thirds of the
  -- slots are used.
  pub put_with-Inserted :
      (expand : StorageHashTable → Result StorageHashTable) (e : Entry)
      → is_used e ≡ true
      → (t' : StorageHashTable) × (put_with hash expand t e
          ≡ (if is_overloaded t'.used_size (length t.entries) then expand t' else ok t'))
        × Inserted hash t e t'
  unfolding put_with
  put_with-Inserted expand e used = finish (
      seek-Wrote hash t.entries valid.probed (entry_check e.key) e (λ x. ground arith)
        (omega (arith, valid.counted, valid.load, valid.probed.nonempty)) used)
    where
      finish :
          (r : ℕ) × (seek t.entries (home hash t.entries e.key) (entry_check e.key) ≡ ok r)
            × Wrote hash t.entries e.key e.ptr (set t.entries r e)
            × (is_used (slot t.entries r) ≡ not (is_absent t.entries e.key))
            × (count_used (set t.entries r e)
                ≡ count_used t.entries + (if is_absent t.entries e.key then 1 else 0))
          → (t' : StorageHashTable) × (put_with hash expand t e
              ≡ (if is_overloaded t'.used_size (length t.entries) then expand t' else ok t'))
            × Inserted hash t e t'
      finish (r, sought, wrote, absent, counted) = (
        record {
          entries = set t.entries r e;
          used_size =
              if Ptr.eq (slot t.entries r).ptr Ptr.empty then t.used_size + 1 else t.used_size;
        },
        rw (key_index-home hash t valid e.key, sought),
        record {
          wrote = wrote;
          counted = ground (arith, absent, counted, valid.counted);
          used = ground (arith, absent);
        },
      )
