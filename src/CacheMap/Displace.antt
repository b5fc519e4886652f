-- ===== src/CacheMap/Displace.antt =====
-- Which entry `putOrDisplace` of src/CacheMap.cpp gives up, and that the others can still be found.
use kvs_cash_machine.Common.{
  ℕ, ◌+◌, ◌-◌, ◌%◌, ◌<◌, ◌≡◌, ◌≢◌, inl, inr, refl, sym, ◌∙◌, Bool-cases, true, false, List, some,
  ==_false, length, set, arith,
}
use mathlib.Core.Bool.{false≢true}
use mathlib.Core.Path.{subst}
use native.Mathlib.Decide.{ℕ_discrete}
use kvs_cash_machine.CacheMap.{CacheMap, empty_check, previous, back_from, victim, displace}
use kvs_cash_machine.CacheMap.Backward.{
  back_from-start, previous-lt, next-previous, distance-previous,
}
use kvs_cash_machine.Entry.{Entry, blank, is_used}
use kvs_cash_machine.Key.{Key}
use kvs_cash_machine.Outcome.{ok}
use kvs_cash_machine.Probe.{slot, find_next_by_predicate}
use kvs_cash_machine.Probe.Count.{count_used-set, unused-exists, used-exists}
use kvs_cash_machine.Probe.Distance.{next}
use kvs_cash_machine.Probe.Search.{IsFirst-behind, find_next_by_predicate-IsNext}
use kvs_cash_machine.Probe.Table.{view, count_used, HoldsAt, IsProbed, view-HoldsAt}
use kvs_cash_machine.Probe.Writes.{Wrote, remove-Wrote}
use kvs_cash_machine.Ptr
use kvs_cash_machine.Ptr.{Ptr}

module _ (entries : List Entry) where
  -- A used slot, the last of its run.
  pub record EndsRun (f : ℕ) : Type 0 where
    pub inside : f < length entries
    pub used : is_used (slot entries f) ≡ true
    pub behind : is_used (slot entries (next (length entries) f)) ≡ false

  module _ (r : ℕ) (lt : r < length entries) where
    -- From a used slot: the slot before the next unused one.
    forward-EndsRun :
        is_used (slot entries r) ≡ true
        → count_used entries < length entries
        → let found = find_next_by_predicate entries r empty_check in
          (found ≢ r) × EndsRun (previous (length entries) found)
    forward-EndsRun u room =
        let n = length entries in
        let found = find_next_by_predicate entries r empty_check in
        let (i, inside, unused) = unused-exists entries room in
        let (ne, first) =
          IsFirst-behind entries r empty_check found i
            (find_next_by_predicate-IsNext entries r empty_check lt) lt (ground arith) inside
            (ground arith) in
        (
          ne,
          record {
            inside = previous-lt n found first.inside;
            used = elim (ℕ_discrete (previous n found) r) [
              | yes same ↦ rw same u
              | no other ↦
                  let miss =
                    first.before (previous n found) (previous-lt n found first.inside)
                      (omega (arith, distance-previous n r lt found first.inside ne)) in
                  ground (arith, miss)
            ];
            behind = rw (next-previous n found first.inside) (ground (arith, first.hit));
          },
        )

    backward-EndsRun :
        is_used (slot entries r) ≡ false
        → 0 < count_used entries
        → let last = back_from (length entries) entries r (previous (length entries) r) in
          (last ≢ r) × EndsRun last
    backward-EndsRun u some' =
        let last = back_from (length entries) entries r (previous (length entries) r) in
        let s = back_from-start entries r lt u in
        let ne : last ≢ r = λ same. contradiction same (s.alone same) in
        (ne, record { inside = s.inside; used = s.used ne; behind = s.behind ne })
      where
        contradiction :
            back_from (length entries) entries r (previous (length entries) r) ≡ r
            → ((j : ℕ) → j < length entries → j ≢ r → is_used (slot entries j) ≡ false)
            → ⊥
        contradiction same alone =
            let (i, inside, used) = used-exists entries some' in
            let other : i ≢ r =
              λ e. false≢true (sym u ∙ subst (λ x. is_used (slot entries x) ≡ true) e used) in
            false≢true (sym (alone i inside other) ∙ used)

    -- The assertions of the choice hold.
    pub victim-EndsRun :
        0 < count_used entries
        → count_used entries < length entries
        → (f : ℕ) × (victim entries r ≡ ok f) × EndsRun f
    unfolding victim
    victim-EndsRun some' room = elim (Bool-cases (is_used (slot entries r))) [
      | inl u ↦
          let (ne, ends) = forward-EndsRun u room in
          (
            previous (length entries) (find_next_by_predicate entries r empty_check),
            rw (u, ==_false ne),
            ends,
          )
      | inr u ↦
          let (ne, ends) = backward-EndsRun u some' in
          (
            back_from (length entries) entries r (previous (length entries) r),
            rw (u, ==_false ne),
            ends,
          )
    ]

-- `m'` is the map `m` without its entry `d`.
pub record Displaced (hash : Key → ℕ) (m : CacheMap) (d : Entry) (m' : CacheMap) : Type 0 where
  pub used : is_used d ≡ true
  pub stored : view m.entries d.key ≡ d.ptr
  pub wrote : Wrote hash m.entries d.key Ptr.empty m'.entries
  pub counted : m'.used_size ≡ count_used m'.entries
  pub fewer : m'.used_size + 1 ≡ m.used_size

-- On a probed and counted map that is neither empty nor full, whatever the random number, an entry is
-- taken out that was stored, the map stays probed and counted, and every other key reads as before.
pub displace-Displaced :
    (hash : Key → ℕ) (m : CacheMap) (random : ℕ)
    → IsProbed hash m.entries
    → m.used_size ≡ count_used m.entries
    → 0 < m.used_size
    → m.used_size < length m.entries
    → (d : Entry) × (m' : CacheMap) × (displace m random ≡ ok (some d, m')) × Displaced hash m d m'
unfolding displace
displace-Displaced hash m random probed counted some' room =
    let r = random % length m.entries in
    let (f, chosen, ends) =
      victim-EndsRun m.entries r (omega (arith, probed.nonempty)) (omega arith) (omega arith) in
    let d = slot m.entries f in
    let held : HoldsAt m.entries d.key f = record {
      inside = ends.inside;
      used = ends.used;
      key = refl;
    } in
    let change = count_used-set m.entries f blank ends.inside in
    (
      d,
      record { entries = set m.entries f blank; used_size = m.used_size - 1 },
      rw (chosen, ends.used),
      record {
        used = ends.used;
        stored = view-HoldsAt hash probed d.key f held;
        wrote = remove-Wrote hash m.entries probed f ends.inside ends.behind d.key held;
        counted = ground (arith, change, ends.used);
        fewer = omega arith;
      },
    )
