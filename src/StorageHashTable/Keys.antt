-- ===== src/StorageHashTable/Keys.antt =====
-- The keys of the entries of a table that have a property, each once.
use kvs_cash_machine.Common.{
  ◌≡◌, ◌≢◌, ◌∙◌, sym, ap, refl, inl, inr, Bool, Bool-cases, true, false, ◌||◌, List, [], ◌∷◌,
  if◌then◌else◌, length, arith,
}
use mathlib.Core.Bool.{false≢true}
use mathlib.Core.Path.{subst}
use kvs_cash_machine.Entry.{Entry}
use kvs_cash_machine.Key
use kvs_cash_machine.Key.{Key}
use kvs_cash_machine.Key.Laws.{eq_iff}
use kvs_cash_machine.Ptr.{Ptr}
use kvs_cash_machine.StorageHashTable.Entries.{AreDistinct, listed, listed-here, listed-there}
use kvs_cash_machine.StorageHashTable.Number.{number_of, listed_nil}

abbrev pub contains : List Key → Key → Bool
contains [] k = false
contains (q ∷ qs) k = Key.eq q k || contains qs k

abbrev pub HasNoTwice : List Key → Type 0
HasNoTwice [] = Unit {0}
HasNoTwice (q ∷ qs) = (contains qs q ≡ false) × HasNoTwice qs

-- The list has exactly the keys with the property, each once.
pub record IsListOf (p : Key → Bool) (ks : List Key) : Type 0 where
  pub exact : (k : Key) → contains ks k ≡ p k
  pub once : HasNoTwice ks

unfoldable pub keys_with : (Key → Bool) → List Entry → List Key
keys_with p [] = []
keys_with p (e ∷ es) = let rest = keys_with p es in if p e.key then e.key ∷ rest else rest

pub length-keys_with : (p : Key → Bool) (es : List Entry) → length (keys_with p es) ≡ number_of p es
unfolding keys_with number_of
length-keys_with p [] = refl
length-keys_with p (e ∷ es) = ground (arith, length-keys_with p es)

-- The listed keys have entries and the property.
keys_with_sound :
    (p : Key → Bool) (es : List Entry) (k : Key)
    → AreDistinct es
    → contains (keys_with p es) k ≡ true
    → (p k ≡ true) × (listed es k ≢ 127)
unfolding keys_with
keys_with_sound p [] k d yes' = absurd (false≢true yes')
keys_with_sound p (e ∷ es) k d yes' = elim (Bool-cases (Key.eq e.key k)) [
  | inl same ↦
      let k' : e.key ≡ k = (eq_iff e.key k).0 same in
      let gone : listed es k ≡ 127 = subst (λ q. listed es q ≡ 127) k' (ap Ptr.raw d.1) in
      let here : listed (e ∷ es) k ≡ e.ptr.raw =
        subst (λ q. listed (e ∷ es) q ≡ e.ptr.raw) k' (ap Ptr.raw (listed-here e es d.0)) in
      elim (Bool-cases (p e.key)) [
        | inl y ↦ (sym (ap p k') ∙ y, λ z. ground (arith, here, z, d.0))
        | inr n ↦ absurd ((keys_with_sound p es k d.2 (rw n at yes')).1 gone)
      ]
  | inr other ↦
      let there = ap Ptr.raw (listed-there e es d.0 k other) in
      let listed' : contains (keys_with p es) k ≡ true = elim (Bool-cases (p e.key)) [
        | inl y ↦ rw (y, other) at yes'
        | inr n ↦ rw n at yes'
      ] in
      let (has, ne) = keys_with_sound p es k d.2 listed' in (has, λ z. ne (sym there ∙ z))
]

keys_with_complete :
    (p : Key → Bool) (es : List Entry) (k : Key)
    → AreDistinct es
    → p k ≡ true
    → listed es k ≢ 127
    → contains (keys_with p es) k ≡ true
unfolding keys_with
keys_with_complete p [] k d py ne = absurd (ne (listed_nil k))
keys_with_complete p (e ∷ es) k d py ne = elim (Bool-cases (Key.eq e.key k)) [
  | inl same ↦
      let head : p e.key ≡ true = ap p ((eq_iff e.key k).0 same) ∙ py in rw (head, same) refl
  | inr other ↦
      let there = ap Ptr.raw (listed-there e es d.0 k other) in
      let rest = keys_with_complete p es k d.2 py (λ z. ne (there ∙ z)) in
      elim (Bool-cases (p e.key)) [ inl y ↦ rw (y, other) rest | inr n ↦ rw n rest ]
]

keys_with_once : (p : Key → Bool) (es : List Entry) → AreDistinct es → HasNoTwice (keys_with p es)
unfolding keys_with
keys_with_once p [] d = tt
keys_with_once p (e ∷ es) d =
    let rest = keys_with_once p es d.2 in
    let gone : contains (keys_with p es) e.key ≡ false =
      elim (Bool-cases (contains (keys_with p es) e.key)) [
        | inl y ↦ absurd ((keys_with_sound p es e.key d.2 y).1 (ap Ptr.raw d.1))
        | inr n ↦ n
      ] in
    elim (Bool-cases (p e.key)) [ inl y ↦ rw y (gone, rest) | inr n ↦ rw n rest ]

-- If only keys with entries have the property, these are the keys that have it.
pub keys_with-IsListOf :
    (p : Key → Bool) (es : List Entry)
    → AreDistinct es
    → ((k : Key) → p k ≡ true → listed es k ≢ 127)
    → IsListOf p (keys_with p es)
keys_with-IsListOf p es d known = record {
  exact = λ k. elim (Bool-cases (contains (keys_with p es) k)) [
    | inl y ↦ y ∙ sym (keys_with_sound p es k d y).0
    | inr n ↦ elim (Bool-cases (p k)) [
      | inl y ↦ absurd (false≢true (sym n ∙ keys_with_complete p es k d y (known k y)))
      | inr n' ↦ n ∙ sym n'
    ]
  ];
  once = keys_with_once p es d;
}
