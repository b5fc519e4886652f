-- ===== src/CacheMap/Backward.antt =====
-- The backwards loop of `putOrDisplace` in src/CacheMap.cpp: what it finds, and that its rounds
-- suffice.
use kvs_cash_machine.Common.{
  ℕ, zero, suc, ◌+◌, ◌<◌, ◌≡◌, ◌≢◌, inl, inr, refl, Bool-cases, true, false, List, ==_true,
  ==_false, length, arith,
}
use native.Mathlib.Decide.{ℕ_discrete}
use kvs_cash_machine.CacheMap.{previous, back_from}
use kvs_cash_machine.Entry.{Entry, is_used}
use kvs_cash_machine.Probe.{slot}
use kvs_cash_machine.Probe.Distance.{
  distance, next, distance-lt, distance_self, distance-pos, distance-injective,
}

pub previous-lt : (n i : ℕ) → i < n → previous n i < n
unfolding previous
previous-lt n i h = ground arith

pub next-previous : (n i : ℕ) → i < n → next n (previous n i) ≡ i
unfolding previous next
next-previous n i h = ground arith

module _ (n r : ℕ) (in_range : r < n) where
  pub distance-previous : (i : ℕ) → i < n → i ≢ r → distance n r (previous n i) + 1 ≡ distance n r i
  unfolding previous distance
  distance-previous i p q = ground arith

  pub distance-previous_self : distance n r (previous n r) + 1 ≡ n
  unfolding previous distance
  distance-previous_self = ground arith

  pub distance-zero : (i : ℕ) → i < n → distance n r i ≡ 0 → i ≡ r
  unfolding distance
  distance-zero i p e = ground arith

module _ (entries : List Entry) (from : ℕ) where
  -- `f` is a used slot with an unused one behind it, unless no other slot than `from` is used.
  pub record IsLast (f : ℕ) : Type 0 where
    pub inside : f < length entries
    pub used : f ≢ from → is_used (slot entries f) ≡ true
    pub behind : f ≢ from → is_used (slot entries (next (length entries) f)) ≡ false
    pub alone :
        f ≡ from → (j : ℕ) → j < length entries → j ≢ from → is_used (slot entries j) ≡ false

  -- The loop has passed over the slots behind `i`, and has rounds enough left.
  record Passed (fuel i : ℕ) : Type 0 where
    inside : i < length entries
    missed :
        (j : ℕ)
        → j < length entries
        → distance (length entries) from i < distance (length entries) from j
        → is_used (slot entries j) ≡ false
    behind : is_used (slot entries (next (length entries) i)) ≡ false
    enough : distance (length entries) from i < fuel

  previous-Passed :
      (fuel i : ℕ)
      → from < length entries
      → Passed (suc fuel) i
      → i ≢ from
      → is_used (slot entries i) ≡ false
      → Passed fuel (previous (length entries) i)
  previous-Passed fuel i lt s ne unused =
      let n = length entries in
      let step = distance-previous n from lt i s.inside ne in
      record {
        inside = previous-lt n i s.inside;
        missed = λ j q d. elim (ℕ_discrete j i) [
          | yes same ↦ rw same unused
          | no other ↦
              s.missed j q (grind (arith, step, distance-injective n from lt j i q s.inside))
        ];
        behind = rw (next-previous n i s.inside) unused;
        enough = omega (arith, step, s.enough);
      }

  back_from-IsLast :
      (fuel i : ℕ) → from < length entries → Passed fuel i → IsLast (back_from fuel entries from i)
  unfolding back_from
  back_from-IsLast zero i lt s = absurd (omega (arith, s.enough))
  back_from-IsLast (suc fuel) i lt s = elim (ℕ_discrete i from) [
    | yes e ↦ rw (==_true e) (record {
      inside = lt;
      used = λ ne. absurd (ne refl);
      behind = λ ne. absurd (ne refl);
      alone = λ _ j q ne.
          s.missed j q (omega (arith, origin e, distance-pos (length entries) from lt j q ne));
    })
    | no ne ↦ elim (Bool-cases (is_used (slot entries i))) [
      | inl u ↦
          rw (==_false ne, u)
            (record {
              inside = s.inside;
              used = λ _. u;
              behind = λ _. s.behind;
              alone = λ e. absurd (ne e);
            })
      | inr u ↦
          rw (==_false ne, u)
            (back_from-IsLast fuel (previous (length entries) i) lt
              (previous-Passed fuel i lt s ne u))
    ]
  ]
    where
      origin : i ≡ from → distance (length entries) from i ≡ 0
      origin e = rw e (distance_self (length entries) from lt)

  -- From an unused slot, the loop finds the nearest used slot before it, whose next slot is unused.
  pub back_from-start :
      from < length entries
      → is_used (slot entries from) ≡ false
      → IsLast (back_from (length entries) entries from (previous (length entries) from))
  back_from-start lt unused =
      let n = length entries in
      let self = distance-previous_self n from lt in
      back_from-IsLast n (previous n from) lt (record {
        inside = previous-lt n from lt;
        missed = λ j q d. absurd (omega (arith, self, distance-lt n from lt j q));
        behind = rw (next-previous n from lt) unused;
        enough = omega (arith, self);
      })
