-- ===== src/StorageHashTable/Valid.antt =====
-- The invariant of the table of src/StorageHashTable.cpp, and what its lookups read.
use kvs_cash_machine.Common.{
  ℕ, ◌*◌, ◌≤◌, ◌<◌, ◌≡◌, inl, inr, sym, ap, ◌∙◌, Bool, Bool-cases, false, Option, none, some,
  ==_true, ==_false, length, length-replicate, arith,
}
use mathlib.Core.Bool.{false≢true}
use native.Mathlib.Decide.{ℕ_discrete}
use kvs_cash_machine.Entry.{Entry, blank, is_used, unused-ptr}
use kvs_cash_machine.Key
use kvs_cash_machine.Key.{Key}
use kvs_cash_machine.Key.Laws.{eq_iff}
use kvs_cash_machine.Outcome.{ok}
use kvs_cash_machine.Probe.{slot, find_next_by_predicate}
use kvs_cash_machine.Probe.Count.{count_used-replicate}
use kvs_cash_machine.Probe.Search.{
  IsFirst, IsFirst-here, IsFirst-behind, find_next_by_predicate-IsNext,
}
use kvs_cash_machine.Probe.Table.{
  view, count_used, view-absent, IsProbed, home, home-lt, view-HoldsAt, absent_behind_unused,
  replicate-IsProbed, view-replicate,
}
use kvs_cash_machine.Ptr
use kvs_cash_machine.StorageHashTable.{StorageHashTable, with_size, key_index, locate, deref, get}

-- The entries stand where linear probing looks for them, `usedSize` counts them, and at least a
-- third of the slots is unused.
pub record IsValid (hash : Key → ℕ) (t : StorageHashTable) : Type 0 where
  pub probed : IsProbed hash t.entries
  pub counted : t.used_size ≡ count_used t.entries
  pub load : 3 * t.used_size ≤ 2 * length t.entries

-- A new table of one slot or more is valid, has the size asked for, and holds nothing.
pub with_size-IsValid :
    (hash : Key → ℕ) (n : ℕ)
    → 0 < n
    → IsValid hash (with_size n)
      × (length (with_size n).entries ≡ n)
      × ((k : Key) → view (with_size n).entries k ≡ Ptr.empty)
unfolding with_size
with_size-IsValid hash n pos = (
  record {
    probed = replicate-IsProbed hash n pos;
    counted = sym (count_used-replicate n);
    load = omega arith;
  },
  length-replicate n blank,
  view-replicate n,
)

module _ (hash : Key → ℕ) (t : StorageHashTable) (valid : IsValid hash t) where
  pub key_index-home : (k : Key) → key_index hash t k ≡ ok (home hash t.entries k)
  unfolding key_index
  key_index-home k =
      rw (==_false {a = length t.entries} {b = 0} (omega (arith, valid.probed.nonempty)))

  -- The first slot with the key, unused ones included, is the key's entry if there is one.
  first-view :
      (k : Key) (r : ℕ)
      → IsFirst t.entries (home hash t.entries k) (λ e. Key.eq e.key k) r
      → (slot t.entries r).ptr ≡ view t.entries k
  first-view k r s = elim (Bool-cases (is_used (slot t.entries r))) [
    | inl u ↦ sym (
        view-HoldsAt hash valid.probed k r
          (record { inside = s.inside; used = u; key = (eq_iff _ k).0 s.hit }))
    | inr u ↦
        unused-ptr (slot t.entries r) u
        ∙ sym (
            view-absent t.entries k (
              absent_behind_unused hash valid.probed k r s.inside u
                (λ j lt d key. false≢true (sym (s.before j lt d) ∙ (eq_iff _ k).1 key))))
  ]

  absent-view :
      (k : Key)
      → ((j : ℕ) → j < length t.entries → Key.eq (slot t.entries j).key k ≡ false)
      → view t.entries k ≡ Ptr.empty
  absent-view k miss =
      view-absent t.entries k (λ i h. false≢true (sym (miss i h.inside) ∙ (eq_iff _ k).1 h.key))

  -- What `get` refers to: a slot with the key and the pointer that the table as a map has for it,
  -- or the static `EMPTY_PTR` if it has none.
  abbrev pub Refers : Key → Option ℕ → Type 0
  Refers k none = view t.entries k ≡ Ptr.empty
  Refers k (some i) =
      (i < length t.entries)
      × ((slot t.entries i).key ≡ k)
      × ((slot t.entries i).ptr ≡ view t.entries k)

  pub first-Refers :
      (k : Key) (r : ℕ)
      → IsFirst t.entries (home hash t.entries k) (λ e. Key.eq e.key k) r
      → Refers k (some r)
  first-Refers k r s = (s.inside, (eq_iff _ k).0 s.hit, first-view k r s)

  pub locate-Refers : (k : Key) → (r : Option ℕ) × (locate hash t k ≡ ok r) × Refers k r
  unfolding locate
  locate-Refers k =
      let h = home hash t.entries k in
      let p : Entry → Bool = λ e. Key.eq e.key k in
      let r = find_next_by_predicate t.entries h p in
      let lt = home-lt hash valid.probed k in
      let s = find_next_by_predicate-IsNext t.entries h p lt in
      elim (Bool-cases (p (slot t.entries h))) [
        | inl here ↦ (
          some h,
          rw (key_index-home k, here),
          first-Refers k h (IsFirst-here t.entries h p lt here),
        )
        | inr miss ↦ elim (ℕ_discrete r h) [
          | yes nowhere ↦ (
            none,
            rw (key_index-home k, miss, ==_true nowhere),
            absent-view k (λ j q. elim (ℕ_discrete j h) [
              | yes at_home ↦ rw at_home miss
              | no other ↦ s.before j q other (inl nowhere)
            ]),
          )
          | no found ↦ (
            some r,
            rw (key_index-home k, miss, ==_false found),
            first-Refers k r (IsFirst-behind t.entries h p r r s lt miss s.inside (s.hit found)).1,
          )
        ]
      ]

  deref-view : (k : Key) (r : Option ℕ) → Refers k r → deref t r ≡ view t.entries k
  unfolding deref
  deref-view k none s = sym s
  deref-view k (some i) s = s.2

  pub locate-view :
      (k : Key) → (r : Option ℕ) × (locate hash t k ≡ ok r) × (deref t r ≡ view t.entries k)
  locate-view k = let (r, located, s) = locate-Refers k in (r, located, deref-view k r s)

  -- On a valid table `get` does not fail, and returns the pointer that the table as a map has for the key.
  pub get-view : (k : Key) → get hash t k ≡ ok (view t.entries k)
  unfolding get
  get-view k = let (r, located, s) = locate-Refers k in rw located (ap ok (deref-view k r s))
