-- ===== src/StorageHashTable/Expand.antt =====
-- `put` where the table does not have to grow, and `expand`.
use kvs_cash_machine.Common.{
  ℕ, zero, suc, ◌+◌, ◌*◌, ◌≤◌, ◌≡◌, refl, ◌∙◌, true, false, Bool-cases, inl, inr, List, [], ◌∷◌,
  if◌then◌else◌, ltb, length, arith,
}
use mathlib.Core.Path.{subst}
use kvs_cash_machine.Constants.{is_overloaded, storage_hash_table_max_size}
use kvs_cash_machine.Entry.{Entry, is_used}
use kvs_cash_machine.Key
use kvs_cash_machine.Key.{Key}
use kvs_cash_machine.Key.Laws.{eq_iff, eq_refl}
use kvs_cash_machine.Outcome.{Result, ok, err, out_of_fuel, no_throw}
use kvs_cash_machine.Probe.Seek.{is_absent}
use kvs_cash_machine.Probe.Table.{view, count_used, IsProbed}
use kvs_cash_machine.Ptr
use kvs_cash_machine.StorageHashTable.{
  StorageHashTable, with_size, get_entries, put_with, put_all, expand_with, put_nested,
}
use kvs_cash_machine.StorageHashTable.Entries.{AreDistinct, get_entries_lem}
use kvs_cash_machine.StorageHashTable.Insert.{Inserted, put_with-Inserted}
use kvs_cash_machine.StorageHashTable.Valid.{IsValid, with_size-IsValid}

-- A `put` that ends with no call of `expand`.
pub record Stored (hash : Key → ℕ) (t : StorageHashTable) (e : Entry) (t' : StorageHashTable)
    : Type 0 where
  pub valid : IsValid hash t'
  pub size : length t'.entries ≡ length t.entries
  pub used : t'.used_size ≡ t.used_size + (if is_absent t.entries e.key then 1 else 0)
  pub reads : (q : Key) → view t'.entries q ≡ (if Key.eq e.key q then e.ptr else view t.entries q)

module _ (hash : Key → ℕ) where
  pub Inserted-Stored :
      (t : StorageHashTable) (e : Entry) (t' : StorageHashTable)
      → Inserted hash t e t'
      → is_overloaded t'.used_size (length t.entries) ≡ false
      → Stored hash t e t'
  Inserted-Stored t e t' s fits = record {
    valid = record {
      probed = s.wrote.probed;
      counted = s.counted;
      load = ground (arith, s.wrote.size);
    };
    size = s.wrote.size;
    used = s.used;
    reads = s.wrote.reads;
  }

  put_with-fits :
      (expand : StorageHashTable → Result StorageHashTable) (t : StorageHashTable) (e : Entry)
      → IsValid hash t
      → is_used e ≡ true
      → 3 * (t.used_size + 1) ≤ 2 * length t.entries
      → (t' : StorageHashTable) × (no_throw (put_with hash expand t e) ≡ ok t') × Stored hash t e t'
  unfolding no_throw
  put_with-fits expand t e valid used fits =
      let (t', put, s) = put_with-Inserted hash t valid expand e used in
      let few : is_overloaded t'.used_size (length t.entries) ≡ false = ground (arith, s.used) in
      (t', rw (put, few), Inserted-Stored t e t' s few)

  pub put_nested-fits :
      (n : ℕ) (t : StorageHashTable) (e : Entry)
      → IsValid hash t
      → is_used e ≡ true
      → 3 * (t.used_size + 1) ≤ 2 * length t.entries
      → (t' : StorageHashTable) × (put_nested hash n t e ≡ ok t') × Stored hash t e t'
  unfolding put_nested
  put_nested-fits zero t e valid used fits =
      put_with-fits (λ _. err out_of_fuel) t e valid used fits
  put_nested-fits (suc n) t e valid used fits =
      put_with-fits (expand_with hash (put_nested hash n)) t e valid used fits

  -- The table `t'` is `t` with the entries `es` put into it.
  pub record Filled (t : StorageHashTable) (es : List Entry) (t' : StorageHashTable) : Type 0 where
    pub valid : IsValid hash t'
    pub size : length t'.entries ≡ length t.entries
    pub used : t'.used_size ≡ t.used_size + length es
    pub reads :
        (q : Key) → view t'.entries q ≡ (if is_absent es q then view t.entries q else view es q)

  fill-step :
      (t t₁ t' : StorageHashTable) (e : Entry) (es : List Entry)
      → AreDistinct (e ∷ es)
      → is_absent t.entries e.key ≡ true
      → Stored hash t e t₁
      → Filled t₁ es t'
      → Filled t (e ∷ es) t'
  unfolding view
  fill-step t t₁ t' e es d new s f = record {
    valid = f.valid;
    size = f.size ∙ s.size;
    used = ground (arith, f.used, s.used, new);
    reads = λ q. elim (Bool-cases (Key.eq e.key q)) [
      | inl same ↦
          let gone : view es q ≡ Ptr.empty =
            subst (λ k. view es k ≡ Ptr.empty) ((eq_iff e.key q).0 same) d.1 in
          ground (arith, f.reads q, s.reads q, gone, d.0)
      | inr other ↦ ground (arith, f.reads q, s.reads q)
    ];
  }

  fill-apart :
      (t t₁ : StorageHashTable) (e : Entry) (es : List Entry)
      → AreDistinct (e ∷ es)
      → Stored hash t e t₁
      → ((q : Key) → is_absent (e ∷ es) q ≡ false → is_absent t.entries q ≡ true)
      → (q : Key) → is_absent es q ≡ false
      → is_absent t₁.entries q ≡ true
  unfolding view
  fill-apart t t₁ e es d s apart q h = elim (Bool-cases (Key.eq e.key q)) [
    | inl same ↦
        let gone : view es q ≡ Ptr.empty =
          subst (λ k. view es k ≡ Ptr.empty) ((eq_iff e.key q).0 same) d.1 in
        absurd (ground (arith, gone))
    | inr other ↦ ground (arith, s.reads q, apart q)
  ]

  pub put_all-Filled :
      (n : ℕ) (es : List Entry) (t : StorageHashTable)
      → IsValid hash t
      → AreDistinct es
      → ((q : Key) → is_absent es q ≡ false → is_absent t.entries q ≡ true)
      → 3 * (t.used_size + length es) ≤ 2 * length t.entries
      → (t' : StorageHashTable) × (put_all hash (put_nested hash n) t es ≡ ok t') × Filled t es t'
  unfolding put_all view
  put_all-Filled n [] t valid d apart fits =
      (t, refl, record { valid = valid; size = refl; used = omega arith; reads = λ q. refl })
  put_all-Filled n (e ∷ es) t valid d apart fits =
      let new : is_absent t.entries e.key ≡ true =
        apart e.key (ground (arith, eq_refl e.key, d.0)) in
      let (t₁, put, s) = put_nested-fits n t e valid d.0 (omega arith) in
      let still : (q : Key) → is_absent es q ≡ false → is_absent t₁.entries q ≡ true =
        fill-apart t t₁ e es d s apart in
      let (t', rest, f) =
        put_all-Filled n es t₁ s.valid d.2 still (ground (arith, s.size, s.used, new)) in
      (t', rw (put, rest), fill-step t t₁ t' e es d new s f)

  -- The table `t'` holds what `t` holds, in twice as many slots.
  pub record Doubled (t t' : StorageHashTable) : Type 0 where
    pub valid : IsValid hash t'
    pub size : length t'.entries ≡ 2 * length t.entries
    pub used : t'.used_size ≡ t.used_size
    pub reads : (q : Key) → view t'.entries q ≡ view t.entries q

  -- `expand` of a table that is probed and counted, as `put` calls it, with used slots at most one
  -- above two thirds of the slots and at most four thirds of them, and a size that may double,
  -- succeeds: the new table is valid, has twice the size, and is the same map. The `put`s inside
  -- need no `expand` of their own.
  pub expand_with-Doubled :
      (n : ℕ) (t : StorageHashTable)
      → IsProbed hash t.entries
      → t.used_size ≡ count_used t.entries
      → 3 * t.used_size ≤ 2 * length t.entries + 3
      → 3 * t.used_size ≤ 4 * length t.entries
      → 2 * length t.entries ≤ storage_hash_table_max_size
      → (t' : StorageHashTable) × (expand_with hash (put_nested hash n) t ≡ ok t') × Doubled t t'
  unfolding expand_with with_size
  expand_with-Doubled n t probed counted few fits small =
      let (start, size, empty) =
        with_size-IsValid hash (length t.entries * 2) (omega (arith, probed.nonempty)) in
      let (same, distinct, number) = get_entries_lem hash t probed in
      let (t', put, f) =
        put_all-Filled n (get_entries t) (with_size (length t.entries * 2)) start distinct
          (λ q _. rw (empty q) refl) (omega (arith, size, number)) in
      let below : ltb storage_hash_table_max_size (length t.entries * 2) ≡ false = ground arith in
      (
        t',
        rw (below, put),
        record {
          valid = f.valid;
          size = omega (arith, f.size, size);
          used = omega (arith, f.used, number);
          reads = λ q. ground (arith, f.reads q, same q, empty q);
        },
      )
