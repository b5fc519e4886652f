-- ===== src/Shard/Pointers.antt =====
-- The changes that the methods of src/Shard.cpp make to a table: none, a write through the reference
-- that `get` returned, and a `put` of a new key.
use kvs_cash_machine.ByteArray.{ByteArray}
use kvs_cash_machine.Common.{
  ℕ, ◌+◌, ◌*◌, ◌%◌, ◌≤◌, ◌<◌, ◌≡◌, ◌≢◌, ◌⊎◌, ◌∙◌, sym, ap, Bool-cases, inl, inr, Option, length,
  arith, refl, ==_true,
}
use kvs_cash_machine.Constants.{storage_hash_table_max_size}
use kvs_cash_machine.Entry.{Entry, used_of_ne}
use kvs_cash_machine.Key
use kvs_cash_machine.Key.{Key}
use kvs_cash_machine.Key.Laws.{eq_iff}
use kvs_cash_machine.Outcome.{ok, err, terminate}
use kvs_cash_machine.Probe.Table.{view}
use kvs_cash_machine.Ptr
use kvs_cash_machine.Ptr.{Ptr}
use kvs_cash_machine.Shard.Change.{Change}
use kvs_cash_machine.Shard.Sound.{Sound, AllowedSize, raw}
use kvs_cash_machine.Shard.{hash}
use kvs_cash_machine.StorageHashTable
use kvs_cash_machine.StorageHashTable.Put.{
  used_with, Updated, put-Updated, put-terminate, assign_lem,
}
use kvs_cash_machine.StorageHashTable.{StorageHashTable}

module _ (xxh3 : ByteArray → ℕ → ℕ) (t : StorageHashTable) (v : ByteArray) (h : Sound xxh3 t v)
    (key : Key) where
  ne_empty : raw t key ≢ 127 → view t.entries key ≢ Ptr.empty
  ne_empty ne e = ne (ap Ptr.raw e)

  own_index :
      (p : Ptr)
      → raw t key ≢ 127
      → p.raw % 128 ≡ raw t key % 128
      → (q : Key) → key ≢ q
      → raw t q ≢ 127
      → raw t q % 128 ≢ p.raw % 128
  own_index p ne same q other nq e = other (h.apart key q ne nq (sym (e ∙ same)))

  pub same-Change : raw t key ≢ 127 → Change xxh3 t key (view t.entries key) t
  same-Change ne = record {
    valid = h.table;
    sizes = h.sizes;
    grows = omega arith;
    reads = λ q. elim (Bool-cases (Key.eq key q)) [
      | inl same ↦ rw same (ap (view t.entries) (sym ((eq_iff key q).0 same)))
      | inr other ↦ rw other
    ];
    range = h.range key ne;
    own = own_index (view t.entries key) ne refl;
  }

  -- The write through the reference, of a pointer with the same index.
  pub assign-Change :
      (p : Ptr)
      → raw t key ≢ 127
      → p.raw < 256
      → p.raw ≢ 127
      → p.raw % 128 ≡ raw t key % 128
      → (r : Option ℕ) × (StorageHashTable.locate (hash xxh3) t key ≡ ok r)
        × (StorageHashTable.deref t r ≡ view t.entries key)
        × Change xxh3 t key p (StorageHashTable.assign t r p)
        × ((StorageHashTable.assign t r p).used_size ≡ t.used_size)
  assign-Change p ne small nep same =
      let (r, located, there, valid, reads, used, size) =
        assign_lem (hash xxh3) t key p h.table (ne_empty ne) (λ e. nep (ap Ptr.raw e)) in
      (
        r,
        located,
        there,
        record {
          valid = valid;
          sizes = omega (arith, size, h.sizes);
          grows = omega (arith, used);
          reads = reads;
          range = (small, omega (arith, used, same, h.range key ne));
          own = own_index p ne same;
        },
        used,
      )

  module _ (new : raw t key ≡ 127) where
    used_with-suc : used_with (hash xxh3) t key ≡ t.used_size + 1
    used_with-suc = rw (==_true new) refl

    entry : Entry
    entry = record { key = key; ptr = record { raw = t.used_size + 128 } }

    room_for :
        t.used_size < 45
        → (3 * used_with (hash xxh3) t key ≤ 2 * length t.entries)
          ⊎ (2 * length t.entries ≤ storage_hash_table_max_size)
    room_for room = elim h.sizes [
      | inl first ↦ inr (omega arith)
      | inr last ↦ inl (omega (arith, used_with-suc))
    ]

    sizes_after :
        t.used_size < 45 → (t' : StorageHashTable) → Updated (hash xxh3) t entry t' → AllowedSize t'
    unfolding entry
    sizes_after room t' u = elim h.sizes [
      | inl first ↦ ground (arith, u.size, used_with-suc)
      | inr last ↦ ground (arith, u.size, used_with-suc)
    ]

    -- The `put` of a new key with the index behind the last one, into a table of less than 45 entries.
    pub put-Change :
        t.used_size < 45
        → (t' : StorageHashTable) × (StorageHashTable.put
              (hash xxh3)
              t
              (record { key = key; ptr = record { raw = t.used_size + 128 } })
            ≡ ok t')
          × Change xxh3 t key (record { raw = t.used_size + 128 }) t'
          × (t'.used_size ≡ t.used_size + 1)
    unfolding entry
    put-Change room =
        let (t', put, u) =
          put-Updated (hash xxh3) t h.table entry
            (used_of_ne entry (λ e. omega (arith, ap Ptr.raw e))) (room_for room) in
        (
          t',
          put,
          record {
            valid = u.valid;
            sizes = sizes_after room t' u;
            grows = omega (arith, u.used, used_with-suc);
            reads = u.reads;
            range = omega (arith, u.used, used_with-suc);
            own = λ q other nq. omega (arith, h.range q nq);
          },
          u.used ∙ used_with-suc,
        )

    -- The `put` into a full table ends the program.
    pub put-full :
        t.used_size ≡ 45
        → (p : Ptr) → p.raw ≢ 127
        → StorageHashTable.put (hash xxh3) t (record { key = key; ptr = p }) ≡ err terminate
    put-full full p ne =
        put-terminate (hash xxh3) t h.table (record { key = key; ptr = p })
          (used_of_ne (record { key = key; ptr = p }) (λ e. ne (ap Ptr.raw e)))
          (omega (arith, used_with-suc, h.table.load, h.sizes))
          (omega (arith, h.table.load, h.sizes))
