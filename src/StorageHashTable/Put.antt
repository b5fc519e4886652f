-- ===== src/StorageHashTable/Put.antt =====
-- What `put` does to a valid table, on each of its ways out, and a write through the reference that
-- `get` returns.
use kvs_cash_machine.Common.{
  ℕ, suc, ◌+◌, ◌*◌, ◌≤◌, ◌<◌, ◌≡◌, ◌≢◌, ◌⊎◌, inl, inr, refl, sym, ◌∙◌, true, false, Bool-cases,
  Option, none, some, if◌then◌else◌, ltb, lt→ltb, ltb→lt, length, arith,
}
use kvs_cash_machine.Constants.{is_overloaded, storage_hash_table_max_size}
use kvs_cash_machine.Entry.{Entry, is_used, used_of_ne}
use kvs_cash_machine.Key
use kvs_cash_machine.Key.{Key}
use kvs_cash_machine.Outcome.{ok, err, terminate, no_throw}
use kvs_cash_machine.Probe.{slot}
use kvs_cash_machine.Probe.Count.{count_used-set}
use kvs_cash_machine.Probe.Seek.{is_absent}
use kvs_cash_machine.Probe.Table.{view, HoldsAt}
use kvs_cash_machine.Probe.Writes.{insert-Wrote, HoldsAt-IsFree}
use kvs_cash_machine.Ptr
use kvs_cash_machine.Ptr.{Ptr}
use kvs_cash_machine.StorageHashTable.{
  StorageHashTable, locate, deref, assign, expand_with, put_nested, put,
}
use kvs_cash_machine.StorageHashTable.Expand.{Inserted-Stored, Doubled, expand_with-Doubled}
use kvs_cash_machine.StorageHashTable.Insert.{Inserted, put_with-Inserted}
use kvs_cash_machine.StorageHashTable.Valid.{IsValid, Refers, locate-Refers}

module _ (hash : Key → ℕ) (t : StorageHashTable) where
  -- The number of used slots with an entry under `k` added.
  abbrev pub used_with : Key → ℕ
  used_with k = t.used_size + (if is_absent t.entries k then 1 else 0)

  used_with-le : (k : Key) → used_with k ≤ t.used_size + 1
  used_with-le k = ground arith

  -- `t'` is valid and reads as `t`, but for the entry `e`; its size is doubled if more than two
  -- thirds of the slots would be used.
  pub record Updated (e : Entry) (t' : StorageHashTable) : Type 0 where
    pub valid : IsValid hash t'
    pub used : t'.used_size ≡ used_with e.key
    pub size : length t'.entries ≡ (
        if is_overloaded (used_with e.key) (length t.entries)
        then 2 * length t.entries
        else length t.entries)
    pub reads : (q : Key) → view t'.entries q ≡ (if Key.eq e.key q then e.ptr else view t.entries q)

  module _ (valid : IsValid hash t) (e : Entry) (used : is_used e ≡ true) where
    stay :
        (t' : StorageHashTable)
        → Inserted hash t e t'
        → is_overloaded t'.used_size (length t.entries) ≡ false
        → Updated e t'
    stay t' s few =
        let stored = Inserted-Stored hash t e t' s few in
        record {
          valid = stored.valid;
          used = s.used;
          size = stored.size ∙ rw (← s.used, few) refl;
          reads = stored.reads;
        }

    grow :
        (t₁ t' : StorageHashTable)
        → Inserted hash t e t₁
        → is_overloaded t₁.used_size (length t.entries) ≡ true
        → Doubled hash t₁ t'
        → Updated e t'
    grow t₁ t' s many d = record {
      valid = d.valid;
      used = d.used ∙ s.used;
      size = rw (← s.used, many) (omega (arith, d.size, s.wrote.size));
      reads = λ q. d.reads q ∙ s.wrote.reads q;
    }

    put_nested-Updated :
        (n : ℕ)
        → (3 * used_with e.key ≤ 2 * length t.entries)
          ⊎ (2 * length t.entries ≤ storage_hash_table_max_size)
        → (t' : StorageHashTable) × (put_nested hash (suc n) t e ≡ ok t') × Updated e t'
    unfolding put_nested no_throw
    put_nested-Updated n room =
        let (t₁, run, s) =
          put_with-Inserted hash t valid (expand_with hash (put_nested hash n)) e used in
        elim (Bool-cases (is_overloaded t₁.used_size (length t.entries))) [
          | inl many ↦
              let (t', grown, d) =
                expand_with-Doubled hash n t₁ s.wrote.probed s.counted
                  (omega (arith, s.used, used_with-le e.key, valid.load, s.wrote.size))
                  (omega (
                    arith,
                    s.used,
                    used_with-le e.key,
                    valid.load,
                    valid.probed.nonempty,
                    s.wrote.size,
                  ))
                  (omega (arith, s.used, s.wrote.size, room, ltb→lt _ _ many)) in
              (t', rw (run, many, grown), grow t₁ t' s many d)
          | inr few ↦ (t₁, rw (run, few), stay t₁ s few)
        ]

    put_nested-terminate :
        (n : ℕ)
        → 2 * length t.entries < 3 * used_with e.key
        → storage_hash_table_max_size < 2 * length t.entries
        → put_nested hash (suc n) t e ≡ err terminate
    unfolding put_nested no_throw expand_with
    put_nested-terminate n full large =
        let (t₁, run, s) =
          put_with-Inserted hash t valid (expand_with hash (put_nested hash n)) e used in
        let many : is_overloaded t₁.used_size (length t.entries) ≡ true =
          rw s.used (lt→ltb _ _ full) in
        let over : ltb storage_hash_table_max_size (length t₁.entries * 2) ≡ true =
          lt→ltb _ _ (omega (arith, s.wrote.size)) in
        rw (run, many, over)

    -- `put` on a valid table succeeds if the load stays below two thirds or the size may double: the table stays valid, and as a
    -- map changes at the entry's key alone. The entry's pointer is not EMPTY_PTR.
    pub put-Updated :
        (3 * used_with e.key ≤ 2 * length t.entries)
          ⊎ (2 * length t.entries ≤ storage_hash_table_max_size)
        → (t' : StorageHashTable) × (put hash t e ≡ ok t') × Updated e t'
    unfolding put
    put-Updated room = put_nested-Updated 6 room

    -- `put` of an entry whose pointer is not EMPTY_PTR, on a valid table whose load would not stay
    -- below two thirds and whose size may not double, ends the program: `expand` throws, and `put`
    -- is `noexcept`.
    pub put-terminate :
        2 * length t.entries < 3 * used_with e.key
        → storage_hash_table_max_size < 2 * length t.entries
        → put hash t e ≡ err terminate
    unfolding put
    put-terminate full large = put_nested-terminate 6 full large

  -- On a valid table, writing a pointer other than EMPTY_PTR through the reference that `get`
  -- returns for a stored key keeps the table valid, with the same numbers of slots and of used
  -- ones, and changes the table as a map at that key alone.
  pub assign_lem :
      (k : Key) (p : Ptr)
      → IsValid hash t
      → view t.entries k ≢ Ptr.empty
      → p ≢ Ptr.empty
      → (r : Option ℕ) × (locate hash t k ≡ ok r)
        × (deref t r ≡ view t.entries k)
        × IsValid hash (assign t r p)
        × ((q : Key) → view (assign t r p).entries q ≡ (if Key.eq k q then p else view t.entries q))
        × ((assign t r p).used_size ≡ t.used_size)
        × (length (assign t r p).entries ≡ length t.entries)
  unfolding assign deref
  assign_lem k p valid stored ne =
      let (r, located, s) = locate-Refers hash t valid k in finish r located s
    where
      finish :
          (r : Option ℕ)
          → locate hash t k ≡ ok r
          → Refers hash t valid k r
          → (r : Option ℕ) × (locate hash t k ≡ ok r)
            × (deref t r ≡ view t.entries k)
            × IsValid hash (assign t r p)
            × ((q : Key)
                → view (assign t r p).entries q ≡ (if Key.eq k q then p else view t.entries q))
            × ((assign t r p).used_size ≡ t.used_size)
            × (length (assign t r p).entries ≡ length t.entries)
      finish none located s = absurd (stored s)
      finish (some i) located (inside, key, same) =
          let e : Entry = record { key = (slot t.entries i).key; ptr = p } in
          let here = used_of_ne (slot t.entries i) (λ e. stored (sym same ∙ e)) in
          let used = used_of_ne e ne in
          let held : HoldsAt t.entries e.key i = record {
            inside = inside;
            used = here;
            key = refl;
          } in
          let w =
            insert-Wrote hash t.entries valid.probed e used i
              (HoldsAt-IsFree hash t.entries valid.probed e.key i held) in
          (
            some i,
            located,
            same,
            record {
              probed = w.probed;
              counted =
                  ground (arith, count_used-set t.entries i e inside, here, used, valid.counted);
              load = omega (arith, valid.load, w.size);
            },
            (λ q. rw (← key) (w.reads q)),
            refl,
            w.size,
          )
