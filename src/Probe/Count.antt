-- ===== src/Probe/Count.antt =====
-- How many slots are used, and that enough of them leave one unused.
use kvs_cash_machine.Common.{
  ℕ, zero, suc, ◌+◌, ◌≤◌, ◌<◌, ◌≡◌, ◌≢◌, inl, inr, refl, true, false, Bool-cases, List, [], ◌∷◌,
  if◌then◌else◌, length, set, replicate, arith,
}
use kvs_cash_machine.Entry.{Entry, blank, is_used}
use kvs_cash_machine.Probe.{slot}
use kvs_cash_machine.Probe.Table.{count_used}

abbrev pub one_if_used : Entry → ℕ
one_if_used e = if is_used e then 1 else 0

pub count_used-set :
    (es : List Entry) (r : ℕ) (e : Entry)
    → r < length es
    → count_used (set es r e) + one_if_used (slot es r) ≡ count_used es + one_if_used e
unfolding count_used
count_used-set [] r e h = absurd (omega arith)
count_used-set (x ∷ es) zero e h = omega arith
count_used-set (x ∷ es) (suc r) e h = omega (arith, count_used-set es r e (omega arith))

pub count_used-le : (es : List Entry) → count_used es ≤ length es
unfolding count_used
count_used-le [] = omega arith
count_used-le (x ∷ es) = ground (arith, count_used-le es)

pub count_used-replicate : (n : ℕ) → count_used (replicate n blank) ≡ 0
unfolding count_used
count_used-replicate zero = refl
count_used-replicate (suc n) = rw (count_used-replicate n)

-- A table that is not full has an unused slot, and one with two places left has one elsewhere
-- than at `h`.
pub unused-exists :
    (es : List Entry)
    → count_used es < length es
    → (i : ℕ) × (i < length es) × (is_used (slot es i) ≡ false)
unfolding count_used
unused-exists [] h = absurd (omega arith)
unused-exists (x ∷ es) h = elim (Bool-cases (is_used x)) [
  | inl u ↦ let (i, lt, free) = unused-exists es (ground arith) in (suc i, omega arith, free)
  | inr u ↦ (0, omega arith, u)
]

pub unused_elsewhere :
    (es : List Entry) (h : ℕ)
    → count_used es + 1 < length es
    → (i : ℕ) × (i < length es) × (i ≢ h) × (is_used (slot es i) ≡ false)
unfolding count_used
unused_elsewhere [] h lt = absurd (omega arith)
unused_elsewhere (x ∷ es) zero lt =
    let (i, in_range, free) = unused-exists es (ground arith) in
    (suc i, omega arith, (λ e. omega arith), free)
unused_elsewhere (x ∷ es) (suc h) lt = elim (Bool-cases (is_used x)) [
  | inl u ↦
      let (i, in_range, ne, free) = unused_elsewhere es h (ground arith) in
      (suc i, omega arith, (λ e. omega arith), free)
  | inr u ↦ (0, omega arith, (λ e. omega arith), u)
]

pub used-exists :
    (es : List Entry) → 0 < count_used es → (i : ℕ) × (i < length es) × (is_used (slot es i) ≡ true)
unfolding count_used
used-exists [] h = absurd (omega arith)
used-exists (x ∷ es) h = elim (Bool-cases (is_used x)) [
  | inl u ↦ (0, omega arith, u)
  | inr u ↦ let (i, lt, used) = used-exists es (ground arith) in (suc i, omega arith, used)
]
