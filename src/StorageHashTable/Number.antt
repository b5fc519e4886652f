-- ===== src/StorageHashTable/Number.antt =====
-- How many of the keys of a table have a property, whatever the order and the places of its entries.
use kvs_cash_machine.Common.{
  ℕ, ◌+◌, ◌≡◌, ◌≢◌, ◌∙◌, sym, ap, refl, inl, inr, Bool, Bool-cases, true, false, List, [], ◌∷◌,
  if◌then◌else◌, length, ◌≤◌, arith,
}
use mathlib.Core.Bool.{false≢true}
use kvs_cash_machine.Entry.{Entry}
use kvs_cash_machine.Key
use kvs_cash_machine.Key.{Key}
use kvs_cash_machine.Key.Laws.{eq_iff, eq_comm, by_key}
use kvs_cash_machine.Probe.Table.{view}
use kvs_cash_machine.Ptr.{Ptr}
use kvs_cash_machine.StorageHashTable.Entries.{AreDistinct, listed, listed-here, listed-there}
use mathlib.Core.Path.{subst}

abbrev pub one_if : Bool → ℕ
one_if b = if b then 1 else 0

pub listed_nil : (k : Key) → listed [] k ≡ 127
unfolding view
listed_nil k = refl

-- The number of entries whose keys have the property.
unfoldable pub number_of : (Key → Bool) → List Entry → ℕ
number_of p [] = 0
number_of p (e ∷ es) = one_if (p e.key) + number_of p es

pub number_of-le : (p : Key → Bool) (es : List Entry) → number_of p es ≤ length es
unfolding number_of
number_of-le p [] = omega arith
number_of-le p (e ∷ es) = ground (arith, number_of-le p es)

pub number_of_ext :
    (p q : Key → Bool) (es : List Entry) → ((k : Key) → p k ≡ q k) → number_of p es ≡ number_of q es
unfolding number_of
number_of_ext p q [] same = refl
number_of_ext p q (e ∷ es) same = rw (same e.key, number_of_ext p q es same) refl

number_of_none : (p : Key → Bool) (es : List Entry) → ((k : Key) → p k ≡ false) → number_of p es ≡ 0
unfolding number_of
number_of_none p [] no' = refl
number_of_none p (e ∷ es) no' = rw (no' e.key, number_of_none p es no') refl

-- The property, but for one key.
abbrev without : Key → (Key → Bool) → Key → Bool
without k p q = if Key.eq q k then false else p q

-- A key that no entry has does not count.
number_of_gone :
    (p : Key → Bool) (k : Key) (es : List Entry)
    → AreDistinct es
    → listed es k ≡ 127
    → number_of p es ≡ number_of (without k p) es
unfolding number_of
number_of_gone p k [] d gone = refl
number_of_gone p k (e ∷ es) d gone = elim (Bool-cases (Key.eq e.key k)) [
  | inl same ↦
      let k' : e.key ≡ k = (eq_iff e.key k).0 same in
      let here : listed (e ∷ es) k ≡ e.ptr.raw =
        subst (λ q. listed (e ∷ es) q ≡ e.ptr.raw) k' (ap Ptr.raw (listed-here e es d.0)) in
      absurd (ground (arith, here, gone, d.0))
  | inr other ↦
      rw
        (other, number_of_gone p k es d.2 (sym (ap Ptr.raw (listed-there e es d.0 k other)) ∙ gone))
        refl
]

number_of_split :
    (p : Key → Bool) (k : Key) (es : List Entry)
    → AreDistinct es
    → (p k ≡ true → listed es k ≢ 127)
    → number_of p es ≡ number_of (without k p) es + one_if (p k)
unfolding number_of view
number_of_split p k [] d known = elim (Bool-cases (p k)) [
  | inl yes' ↦ absurd (known yes' refl)
  | inr no' ↦ rw no' refl
]
number_of_split p k (e ∷ es) d known = elim (Bool-cases (Key.eq e.key k)) [
  | inl same ↦
      let k' : e.key ≡ k = (eq_iff e.key k).0 same in
      let gone : listed es k ≡ 127 = subst (λ q. listed es q ≡ 127) k' (ap Ptr.raw d.1) in
      let rest = number_of_gone p k es d.2 gone in
      let head : p e.key ≡ p k = ap p k' in rw (same, head) (omega (arith, rest))
  | inr other ↦
      let there = ap Ptr.raw (listed-there e es d.0 k other) in
      let rest = number_of_split p k es d.2 (λ y z. known y (there ∙ z)) in
      rw other (omega (arith, rest))
]

-- The entries' order plays no part.
number_of_same :
    (p : Key → Bool) (es fs : List Entry)
    → AreDistinct es
    → AreDistinct fs
    → ((k : Key) → p k ≡ true → (listed es k ≢ 127) × (listed fs k ≢ 127))
    → number_of p es ≡ number_of p fs
unfolding number_of
number_of_same p [] fs d d' known =
    let none' : (k : Key) → p k ≡ false = (λ k. elim (Bool-cases (p k)) [
      | inl y ↦ absurd ((known k y).0 (listed_nil k))
      | inr n ↦ n
    ]) in
    sym (number_of_none p fs none')
number_of_same p (e ∷ es) fs d d' known =
    let k = e.key in
    let others : (q : Key) → without k p q ≡ true → (listed es q ≢ 127) × (listed fs q ≢ 127) =
      (λ q y. elim (Bool-cases (Key.eq q k)) [
        | inl same ↦ absurd (false≢true (rw same at y))
        | inr other ↦
            let py : p q ≡ true = rw other at y in
            let apart : Key.eq e.key q ≡ false = eq_comm e.key q ∙ other in
            let there = ap Ptr.raw (listed-there e es d.0 q apart) in
            (λ z. (known q py).0 (there ∙ z), (known q py).1)
      ]) in
    let rest = number_of_same (without k p) es fs d.2 d' others in
    let gone = number_of_gone p k es d.2 (ap Ptr.raw d.1) in
    let split = number_of_split p k fs d' (λ y. (known k y).1) in omega (arith, rest, gone, split)

-- If the property changes at one key, its number changes by that key.
pub number_of_change :
    (p p' : Key → Bool) (k : Key) (es fs : List Entry)
    → AreDistinct es
    → AreDistinct fs
    → ((q : Key) → Key.eq k q ≡ false → p' q ≡ p q)
    → ((q : Key) → p q ≡ true → listed es q ≢ 127)
    → ((q : Key) → p' q ≡ true → listed fs q ≢ 127)
    → number_of p' fs + one_if (p k) ≡ number_of p es + one_if (p' k)
number_of_change p p' k es fs d d' same known known' =
    let kept : (q : Key) → without k p q ≡ without k p' q = (λ q. elim (Bool-cases (Key.eq q k)) [
      | inl s ↦ rw s refl
      | inr o ↦ rw (o, same q (eq_comm k q ∙ o)) refl
    ]) in
    let keep : (q : Key) → without k p' q ≡ true → (listed es q ≢ 127) × (listed fs q ≢ 127) =
      (λ q y. elim (Bool-cases (Key.eq q k)) [
        | inl s ↦ absurd (false≢true (rw s at y))
        | inr o ↦
            let py : p' q ≡ true = rw o at y in
            (known q (sym (same q (eq_comm k q ∙ o)) ∙ py), known' q py)
      ]) in
    let one = number_of_split p k es d (known k) in
    let other = number_of_split p' k fs d' (known' k) in
    let exchange = number_of_ext (without k p) (without k p') es kept in
    omega (arith, one, other, exchange, number_of_same (without k p') es fs d d' keep)

-- A key of an entry that has the property counts.
pub number_of-positive :
    (p : Key → Bool) (k : Key) (es : List Entry)
    → AreDistinct es
    → p k ≡ true
    → listed es k ≢ 127
    → 1 ≤ number_of p es
number_of-positive p k es d yes' there =
    let split = number_of_split p k es d (λ _. there) in
    let one : one_if (p k) ≡ 1 = rw yes' refl in omega (arith, split, one)

-- If every key has the property, the number is that of the entries.
pub number_of_all :
    (p : Key → Bool) (es : List Entry)
    → AreDistinct es
    → ((k : Key) → listed es k ≢ 127 → p k ≡ true)
    → number_of p es ≡ length es
unfolding number_of
number_of_all p [] d all = refl
number_of_all p (e ∷ es) d all =
    let gone : listed es e.key ≡ 127 = ap Ptr.raw d.1 in
    let here : listed (e ∷ es) e.key ≢ 127 =
      (λ z. ground (arith, ap Ptr.raw (listed-here e es d.0), d.0)) in
    let rest = number_of_all p es d.2 (
      by_key e.key (λ q. listed es q ≢ 127 → p q ≡ true) (λ ne. absurd (ne gone))
        (λ q other ne. all q (λ z. ne (sym (ap Ptr.raw (listed-there e es d.0 q other)) ∙ z)))) in
    rw (all e.key here, rest) (omega arith)
