-- ===== src/Probe/Search.antt =====
-- What `findNextByPredicate` finds.
use kvs_cash_machine.Common.{
  ℕ, zero, suc, ◌+◌, ◌-◌, ◌<◌, ◌≡◌, ◌≢◌, ◌⊎◌, inl, inr, refl, Bool, true, false, List, ◌==◌,
  ==_true, ==_false, Bool-cases, if◌then◌else◌, length, arith,
}
use native.Mathlib.Decide.{ℕ_discrete}
use kvs_cash_machine.Entry.{Entry}
use kvs_cash_machine.Probe.{slot, next_from, find_next_by_predicate}
use kvs_cash_machine.Probe.Distance.{
  distance, next, next-mod, next-lt, distance-lt, distance_self, distance-cover, distance-next,
}

module _ (entries : List Entry) (from : ℕ) (p : Entry → Bool) where
  -- `r` is the first slot behind `from` that meets `p`, or `from` if no other slot does.
  pub record IsNext (r : ℕ) : Type 0 where
    pub inside : r < length entries
    pub hit : r ≢ from → p (slot entries r) ≡ true
    pub before :
        (j : ℕ)
        → j < length entries
        → j ≢ from
        → (r ≡ from) ⊎ (distance (length entries) from j < distance (length entries) from r)
        → p (slot entries j) ≡ false

  -- The loop has passed over the slots before `i`, and has rounds enough left.
  record Passed (fuel i : ℕ) : Type 0 where
    inside : i < length entries
    missed :
        (j : ℕ)
        → j < length entries
        → j ≢ from
        → (i ≡ from) ⊎ (distance (length entries) from j < distance (length entries) from i)
        → p (slot entries j) ≡ false
    enough : (i ≡ from) ⊎ (length entries < distance (length entries) from i + fuel)

  next-Passed :
      (fuel i : ℕ)
      → from < length entries
      → Passed (suc fuel) i
      → i ≢ from
      → p (slot entries i) ≡ false
      → Passed fuel (next (length entries) i)
  next-Passed fuel i lt s ne miss = record {
    inside = next-lt (length entries) i s.inside;
    missed = λ j q r c. elim (distance-cover (length entries) from lt i j s.inside q c) [
      | inl e ↦ rw e miss
      | inr d ↦ s.missed j q r (inr d)
    ];
    enough = elim (ℕ_discrete (next (length entries) i) from) [
      | yes e ↦ inl e
      | no k ↦ inr (omega (arith, distance-next (length entries) from lt i s.inside k))
    ];
  }

  next_from-IsNext :
      (fuel i : ℕ)
      → from < length entries
      → 0 < fuel
      → Passed fuel i
      → IsNext (next_from fuel entries from p i)
  unfolding next_from
  next_from-IsNext zero i lt pos s = absurd (omega arith)
  next_from-IsNext (suc fuel) i lt pos s = elim (ℕ_discrete i from) [
    | yes e ↦ rw (==_true e) (record {
      inside = lt;
      hit = λ ne. absurd (ne refl);
      before = λ j q r c. s.missed j q r (inl e);
    })
    | no ne ↦ elim (Bool-cases (p (slot entries i))) [
      | inl yes' ↦
          rw (==_false ne, yes') (record { inside = s.inside; hit = λ _. yes'; before = s.missed })
      | inr no' ↦
          rw (==_false ne, no', next-mod (length entries) i s.inside)
            (next_from-IsNext fuel (next (length entries) i) lt
              (omega (arith, distance-lt (length entries) from lt i s.inside))
              (next-Passed fuel i lt s ne no'))
    ]
  ]

  -- `findNextByPredicate` returns the first slot behind `from`, going round the table, that meets
  -- the predicate, and `from` exactly if no other slot meets it; its rounds suffice.
  pub find_next_by_predicate-IsNext :
      from < length entries → IsNext (find_next_by_predicate entries from p)
  unfolding find_next_by_predicate next
  find_next_by_predicate-IsNext lt =
      rw first (next_from-IsNext n (next n from) lt (omega arith) start)
    where
      n : ℕ
      n = length entries

      first : (if from == n - 1 then 0 else from + 1) ≡ next n from
      first = ground arith

      start : Passed n (next n from)
      start = record {
        inside = next-lt n from lt;
        missed = λ j q r c. absurd (elim (distance-cover n from lt from j lt q c) [
          | inl e ↦ r e
          | inr d ↦ omega (arith, distance_self n from lt)
        ]);
        enough = elim (ℕ_discrete (next n from) from) [
          | yes e ↦ inl e
          | no k ↦ inr (omega (arith, distance-next n from lt from lt k, distance_self n from lt))
        ];
      }

module _ (entries : List Entry) (h : ℕ) (p : Entry → Bool) where
  -- `r` is the first slot from `h` on, `h` included, that meets `p`.
  pub record IsFirst (r : ℕ) : Type 0 where
    pub inside : r < length entries
    pub hit : p (slot entries r) ≡ true
    pub before :
        (j : ℕ)
        → j < length entries
        → distance (length entries) h j < distance (length entries) h r
        → p (slot entries j) ≡ false

  pub IsFirst-here : h < length entries → p (slot entries h) ≡ true → IsFirst h
  IsFirst-here lt yes' = record {
    inside = lt;
    hit = yes';
    before = λ j q d. absurd (omega (arith, distance_self (length entries) h lt));
  }

  -- Where some slot meets the predicate and `h` does not, the search behind `h` finds the first.
  pub IsFirst-behind :
      (r i : ℕ)
      → IsNext entries h p r
      → h < length entries
      → p (slot entries h) ≡ false
      → i < length entries
      → p (slot entries i) ≡ true
      → (r ≢ h) × IsFirst r
  IsFirst-behind r i s lt no' inside hit =
      (ne, record { inside = s.inside; hit = s.hit ne; before = before })
    where
      ne : r ≢ h
      ne e = elim (ℕ_discrete i h) [
        | yes same ↦ cc
        | no other ↦ cc (s.before i inside other (inl e))
      ]

      before :
          (j : ℕ)
          → j < length entries
          → distance (length entries) h j < distance (length entries) h r
          → p (slot entries j) ≡ false
      before j q d = elim (ℕ_discrete j h) [
        | yes same ↦ rw same no'
        | no other ↦ s.before j q other (inr d)
      ]
