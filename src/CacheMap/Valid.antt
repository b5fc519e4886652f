-- ===== src/CacheMap/Valid.antt =====
-- The invariant of the map of src/CacheMap.cpp, and what its lookups read.
use kvs_cash_machine.Common.{
  ℕ, ◌+◌, ◌*◌, ◌≤◌, ◌<◌, ◌≡◌, ◌≢◌, inl, inr, refl, sym, ap, ◌∙◌, Bool, Bool-cases, true, false,
  ==_false, length, replicate, length-replicate, arith,
}
use mathlib.Core.Bool.{false≢true}
use kvs_cash_machine.CacheMap.{CacheMap, entry_check, key_index, locate, get, with_size, clear}
use kvs_cash_machine.Entry.{Entry, blank, is_used, unused-ptr}
use kvs_cash_machine.Key
use kvs_cash_machine.Key.{Key}
use kvs_cash_machine.Key.Laws.{eq_iff}
use kvs_cash_machine.Outcome.{ok}
use kvs_cash_machine.Probe.{slot, find_next_by_predicate}
use kvs_cash_machine.Probe.Count.{count_used-replicate, unused_elsewhere}
use kvs_cash_machine.Probe.Distance.{distance_self}
use kvs_cash_machine.Probe.Search.{IsFirst-behind, find_next_by_predicate-IsNext}
use kvs_cash_machine.Probe.Table.{
  view, count_used, HoldsAt, view-absent, IsProbed, home, home-lt, view-HoldsAt,
  absent_behind_unused, replicate-IsProbed, view-replicate,
}
use kvs_cash_machine.Ptr
use kvs_cash_machine.Ptr.{Ptr}

-- The entries stand where linear probing looks for them, `usedSize` counts them, and it is at most
-- one above two thirds of the size.
pub record IsValid (hash : Key → ℕ) (m : CacheMap) : Type 0 where
  pub probed : IsProbed hash m.entries
  pub counted : m.used_size ≡ count_used m.entries
  pub load : 3 * m.used_size ≤ 2 * length m.entries + 3
  pub large : 9 ≤ length m.entries

module _ (hash : Key → ℕ) where
  blank-IsValid :
      (n : ℕ) → 9 ≤ n → IsValid hash (record { entries = replicate n blank; used_size = 0 })
  blank-IsValid n large = record {
    probed = replicate-IsProbed hash n (omega arith);
    counted = sym (count_used-replicate n);
    load = omega arith;
    large = omega (arith, length-replicate n blank);
  }

  -- A new map of nine slots or more is valid and empty.
  pub map_with_size-IsValid :
      (n : ℕ)
      → 9 ≤ n
      → IsValid hash (with_size n) × ((k : Key) → view (with_size n).entries k ≡ Ptr.empty)
  unfolding with_size
  map_with_size-IsValid n large = (blank-IsValid n large, view-replicate n)

  -- `clear` on a valid map leaves a valid, empty map of the same size.
  pub clear-IsValid :
      (m : CacheMap)
      → IsValid hash m
      → IsValid hash (clear m)
        × (length (clear m).entries ≡ length m.entries)
        × ((k : Key) → view (clear m).entries k ≡ Ptr.empty)
  unfolding clear
  clear-IsValid m valid = (
    blank-IsValid (length m.entries) valid.large,
    length-replicate (length m.entries) blank,
    view-replicate (length m.entries),
  )

module _ (hash : Key → ℕ) (m : CacheMap) (valid : IsValid hash m) where
  pub key_index-home : (k : Key) → key_index hash m k ≡ ok (home hash m.entries k)
  unfolding key_index
  key_index-home k = rw (==_false {a = length m.entries} {b = 0} (omega (arith, valid.large)))

  -- What `get` refers to: the slot of the key's entry, or an unused slot if there is none.
  pub record Refers (k : Key) (i : ℕ) : Type 0 where
    pub inside : i < length m.entries
    pub reads : (slot m.entries i).ptr ≡ view m.entries k
    pub held : is_used (slot m.entries i) ≡ true → (slot m.entries i).key ≡ k

  -- A slot with the key or unused, met before any other such, is the one.
  found-Refers :
      (k : Key) (i : ℕ)
      → i < length m.entries
      → entry_check k (slot m.entries i) ≡ true
      → (is_used (slot m.entries i) ≡ false → (j : ℕ) → ¬ HoldsAt m.entries k j)
      → Refers k i
  found-Refers k i lt hit absent = elim (Bool-cases (is_used (slot m.entries i))) [
    | inl u ↦
        let key : (slot m.entries i).key ≡ k = (eq_iff (slot m.entries i).key k).0 (ground arith) in
        record {
          inside = lt;
          reads =
              sym
                (view-HoldsAt hash valid.probed k i (record { inside = lt; used = u; key = key }));
          held = λ _. key;
        }
    | inr u ↦ record {
      inside = lt;
      reads = unused-ptr (slot m.entries i) u ∙ sym (view-absent m.entries k (absent u));
      held = λ h. absurd (false≢true (sym u ∙ h));
    }
  ]

  absent_at_home :
      (k : Key)
      → is_used (slot m.entries (home hash m.entries k)) ≡ false
      → (j : ℕ) → ¬ HoldsAt m.entries k j
  absent_at_home k u =
      let lt = home-lt hash valid.probed k in
      absent_behind_unused hash valid.probed k (home hash m.entries k) lt u
        (λ j q d key. omega (arith, d, distance_self (length m.entries) (home hash m.entries k) lt))

  missed : (k : Key) (j : ℕ) → entry_check k (slot m.entries j) ≡ false → (slot m.entries j).key ≢ k
  missed k j miss key = ground (arith, (eq_iff (slot m.entries j).key k).1 key)

  pub locate-Refers : (k : Key) → (i : ℕ) × (locate hash m k ≡ ok i) × Refers k i
  unfolding locate
  locate-Refers k =
      let h = home hash m.entries k in
      let p : Entry → Bool = entry_check k in
      let r = find_next_by_predicate m.entries h p in
      let lt = home-lt hash valid.probed k in
      let s = find_next_by_predicate-IsNext m.entries h p lt in
      let (i, inside, other, unused) =
        unused_elsewhere m.entries h (omega (arith, valid.counted, valid.load, valid.large)) in
      let takes : p (slot m.entries i) ≡ true = ground arith in
      elim (Bool-cases (Key.eq (slot m.entries h).key k)) [
        | inl here ↦ (
          h,
          rw (key_index-home k, here),
          found-Refers k h lt (rw here refl) (λ u. absent_at_home k u),
        )
        | inr miss ↦ elim (Bool-cases (is_used (slot m.entries h))) [
          | inl u ↦
              let (ne, first) = IsFirst-behind m.entries h p r i s lt (ground arith) inside takes in
              (
                r,
                rw (key_index-home k, miss, ==_false ne),
                found-Refers k r first.inside first.hit (λ v.
                    absent_behind_unused hash valid.probed k r first.inside v
                      (λ j q d key. missed k j (first.before j q d) key)),
              )
          | inr u ↦
              let ne : r ≢ h =
                λ same. false≢true (sym (s.before i inside other (inl same)) ∙ takes) in
              (
                r,
                rw (key_index-home k, miss, ==_false ne),
                found-Refers k r s.inside (s.hit ne) (λ _. absent_at_home k u),
              )
        ]
      ]

  -- On a valid map of nine slots or more, of which at most two thirds and one are in use, `get` does
  -- not fail, and returns the pointer that the map has for the key, EMPTY_PTR if none.
  pub map_get-view : (k : Key) → get hash m k ≡ ok (view m.entries k)
  unfolding get
  map_get-view k = let (i, located, s) = locate-Refers k in rw located (ap ok s.reads)
