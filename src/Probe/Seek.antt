-- ===== src/Probe/Seek.antt =====
-- The slot that a `put` chooses.
use kvs_cash_machine.Common.{
  ℕ, ◌<◌, ◌≡◌, inl, inr, sym, ◌∙◌, true, not, ◌||◌, Bool, Bool-cases, List, if◌then◌else◌, refl,
  set, ◌+◌, ==_false, length, arith,
}
use mathlib.Core.Bool.{false≢true}
use mathlib.Core.Path.{fun_ext}
use kvs_cash_machine.Entry.{Entry, is_used}
use kvs_cash_machine.Key
use kvs_cash_machine.Key.{Key}
use kvs_cash_machine.Key.Laws.{eq_iff}
use kvs_cash_machine.Outcome.{ok}
use kvs_cash_machine.Probe.{slot, find_next_by_predicate, seek}
use kvs_cash_machine.Probe.Search.{
  IsFirst, IsFirst-here, IsFirst-behind, find_next_by_predicate-IsNext,
}
use kvs_cash_machine.Probe.Table.{
  view, count_used, view-absent, IsProbed, home, home-lt, view-HoldsAt, absent_behind_unused,
}
use kvs_cash_machine.Probe.Count.{count_used-set, unused-exists}
use kvs_cash_machine.Ptr
use kvs_cash_machine.Probe.Writes.{IsFree, Wrote, insert-Wrote}

-- Where some slot meets the predicate, the assertion holds and the slot is the first.
pub seek-IsFirst :
    (entries : List Entry) (h : ℕ) (p : Entry → Bool) (i : ℕ)
    → h < length entries
    → i < length entries
    → p (slot entries i) ≡ true
    → (r : ℕ) × (seek entries h p ≡ ok r) × IsFirst entries h p r
unfolding seek
seek-IsFirst entries h p i lt inside hit = elim (Bool-cases (p (slot entries h))) [
  | inl here ↦ (h, rw here, IsFirst-here entries h p lt here)
  | inr miss ↦
      let r = find_next_by_predicate entries h p in
      let found =
        IsFirst-behind entries h p r i (find_next_by_predicate-IsNext entries h p lt) lt miss inside
          hit in
      (r, rw (miss, ==_false (λ e. found.0 (sym e))), found.1)
]

-- An entry under `k` may be written to this slot.
abbrev pub takes : Key → Entry → Bool
takes k e = not (is_used e) || Key.eq e.key k

module _ (hash : Key → ℕ) (entries : List Entry) (k : Key) (r : ℕ) where
  pub IsFirst-IsFree : IsFirst entries (home hash entries k) (takes k) r → IsFree hash entries k r
  IsFirst-IsFree s = record {
    inside = s.inside;
    hit = elim (Bool-cases (is_used (slot entries r))) [
      | inl u ↦ inr ((eq_iff (slot entries r).key k).0 (ground arith))
      | inr u ↦ inl u
    ];
    before = λ j lt d.
        let miss = s.before j lt d in
        (ground arith, λ e. ground (arith, (eq_iff (slot entries j).key k).1 e));
  }

-- Whether the table as a map has nothing under the key.
abbrev pub is_absent : List Entry → Key → Bool
is_absent entries k = Ptr.eq (view entries k) Ptr.empty

module _ (hash : Key → ℕ) (entries : List Entry) (probed : IsProbed hash entries) where
  -- The chosen slot is unused exactly if the key is new.
  unused_iff_absent :
      (k : Key) (r : ℕ)
      → IsFree hash entries k r
      → is_used (slot entries r) ≡ not (is_absent entries k)
  unused_iff_absent k r free = elim (Bool-cases (is_used (slot entries r))) [
    | inl u ↦ elim free.hit [
      | inl unused ↦ absurd (false≢true (sym unused ∙ u))
      | inr key ↦
          rw (view-HoldsAt hash probed k r (record { inside = free.inside; used = u; key = key }))
            (ground arith)
    ]
    | inr u ↦ rw (
      u,
      view-absent entries k
          (absent_behind_unused hash probed k r free.inside u (λ j lt d. (free.before j lt d).1)),
    )
  ]

  -- In a table that is not full `put` finds a slot; the write updates the map at the entry's key,
  -- and uses one slot more if the key is new.
  pub seek-Wrote :
      (p : Entry → Bool) (e : Entry)
      → ((x : Entry) → p x ≡ takes e.key x)
      → count_used entries < length entries
      → is_used e ≡ true
      → (r : ℕ) × (seek entries (home hash entries e.key) p ≡ ok r)
        × Wrote hash entries e.key e.ptr (set entries r e)
        × (is_used (slot entries r) ≡ not (is_absent entries e.key))
        × (count_used (set entries r e)
            ≡ count_used entries + (if is_absent entries e.key then 1 else 0))
  seek-Wrote p e same room used =
      let (i, lt, unused) = unused-exists entries room in
      let (r, sought, first) =
        seek-IsFirst entries (home hash entries e.key) (takes e.key) i (home-lt hash probed e.key)
          lt (rw unused refl) in
      let free = IsFirst-IsFree hash entries e.key r first in
      let absent = unused_iff_absent e.key r free in
      (
        r,
        rw (fun_ext same) sought,
        insert-Wrote hash entries probed e used r free,
        absent,
        ground (arith, count_used-set entries r e first.inside, absent, used),
      )
