-- ===== src/Probe/Table.antt =====
-- What a table of slots means, and where linear probing keeps the entries.
use kvs_cash_machine.Common.{
  ℕ, zero, suc, ◌+◌, ◌%◌, ◌<◌, ◌≡◌, ◌≢◌, ◌⊎◌, inl, inr, refl, sym, ◌∙◌, true, false, ◌&&◌, List, [],
  ◌∷◌, Bool-cases, if◌then◌else◌, length, length-replicate, replicate, get_or-replicate, arith,
}
use mathlib.Core.Bool.{false≢true}
use mathlib.Core.Path.{subst}
use native.Mathlib.Decide.{dec_lt}
use kvs_cash_machine.Entry.{Entry, blank, is_used}
use kvs_cash_machine.Key
use kvs_cash_machine.Key.{Key}
use kvs_cash_machine.Key.Laws.{eq_iff}
use kvs_cash_machine.Ptr
use kvs_cash_machine.Ptr.{Ptr}
use kvs_cash_machine.Probe.{slot}
use kvs_cash_machine.Probe.Distance.{distance, distance-injective}

-- The table as a map: the pointer of the used entry under a key, and the empty pointer without
-- one. Slots, probing and order play no part.
unfoldable pub view : List Entry → Key → Ptr
view [] k = Ptr.empty
view (e ∷ es) k = if is_used e && Key.eq e.key k then e.ptr else view es k

-- The number of used slots.
unfoldable pub count_used : List Entry → ℕ
count_used [] = 0
count_used (e ∷ es) = (if is_used e then 1 else 0) + count_used es

-- Slot `i` is used, under the key `k`.
pub record HoldsAt (entries : List Entry) (k : Key) (i : ℕ) : Type 0 where
  pub inside : i < length entries
  pub used : is_used (slot entries i) ≡ true
  pub key : (slot entries i).key ≡ k

module _ {e : Entry} {es : List Entry} {k : Key} where
  pub HoldsAt-here : (is_used e && Key.eq e.key k) ≡ true → HoldsAt (e ∷ es) k 0
  HoldsAt-here h =
      let u : is_used e ≡ true = ground arith in
      record { inside = omega arith; used = u; key = (eq_iff e.key k).0 (ground arith) }

  pub HoldsAt-there : {i : ℕ} → HoldsAt es k i → HoldsAt (e ∷ es) k (suc i)
  HoldsAt-there h = record { inside = omega arith; used = h.used; key = h.key }

  HoldsAt-back : {i : ℕ} → HoldsAt (e ∷ es) k (suc i) → HoldsAt es k i
  HoldsAt-back h = record { inside = omega arith; used = h.used; key = h.key }

  HoldsAt-at_zero : HoldsAt (e ∷ es) k 0 → (is_used e && Key.eq e.key k) ≡ true
  HoldsAt-at_zero h = rw (h.used, (eq_iff e.key k).1 h.key)

view_at :
    (es : List Entry) (k : Key) (i : ℕ)
    → HoldsAt es k i
    → ((j : ℕ) → HoldsAt es k j → j ≡ i)
    → view es k ≡ (slot es i).ptr
unfolding view
view_at [] k i h only = absurd (omega arith)
view_at (e ∷ es) k zero h only = rw (HoldsAt-at_zero h)
view_at (e ∷ es) k (suc i) h only = elim (Bool-cases (is_used e && Key.eq e.key k)) [
  | inl m ↦ absurd (omega (arith, only 0 (HoldsAt-here m)))
  | inr m ↦
      rw m (view_at es k i (HoldsAt-back h) (λ j q. omega (arith, only (suc j) (HoldsAt-there q))))
]

pub view-absent : (es : List Entry) (k : Key) → ((i : ℕ) → ¬ HoldsAt es k i) → view es k ≡ Ptr.empty
unfolding view
view-absent [] k never = refl
view-absent (e ∷ es) k never = elim (Bool-cases (is_used e && Key.eq e.key k)) [
  | inl m ↦ absurd (never 0 (HoldsAt-here m))
  | inr m ↦ rw m (view-absent es k (λ j q. never (suc j) (HoldsAt-there q)))
]

pub view-cases :
    (es : List Entry) (k : Key) → ((i : ℕ) × HoldsAt es k i) ⊎ ((i : ℕ) → ¬ HoldsAt es k i)
view-cases [] k = inr (λ i h. omega arith)
view-cases (e ∷ es) k = elim (Bool-cases (is_used e && Key.eq e.key k)) [
  | inl m ↦ inl (0, HoldsAt-here m)
  | inr m ↦ elim (view-cases es k) [
    | inl (i, h) ↦ inl (suc i, HoldsAt-there h)
    | inr never ↦ inr (absent m never)
  ]
]
  where
    absent :
        (is_used e && Key.eq e.key k) ≡ false
        → ((i : ℕ) → ¬ HoldsAt es k i)
        → (i : ℕ) → ¬ HoldsAt (e ∷ es) k i
    absent m never zero h = false≢true (sym m ∙ HoldsAt-at_zero h)
    absent m never (suc i) h = never i (HoldsAt-back h)

module _ (hash : Key → ℕ) where
  -- The slot where the search for a key begins.
  abbrev pub home : List Entry → Key → ℕ
  home entries k = hash k % length entries

  -- The invariant of linear probing: from its home, a key's entry is reached over used slots of
  -- other keys. Unused slots hold the default key.
  pub record IsProbed (entries : List Entry) : Type 0 where
    pub nonempty : 0 < length entries
    pub blanks :
        (i : ℕ)
        → i < length entries
        → is_used (slot entries i) ≡ false
        → (slot entries i).key ≡ Key.default
    pub reach :
        (k : Key) (i j : ℕ)
        → HoldsAt entries k i
        → j < length entries
        → distance (length entries) (home entries k) j
          < distance (length entries) (home entries k) i
        → (is_used (slot entries j) ≡ true) × ((slot entries j).key ≢ k)

  module _ {entries : List Entry} (probed : IsProbed entries) where
    pub home-lt : (k : Key) → home entries k < length entries
    home-lt k = omega (arith, probed.nonempty)

    -- No key occurs twice.
    pub HoldsAt-unique : (k : Key) (i j : ℕ) → HoldsAt entries k i → HoldsAt entries k j → i ≡ j
    HoldsAt-unique k i j p q =
        let n = length entries in
        let h = home entries k in
        elim (dec_lt (distance n h i) (distance n h j)) [
          | yes a ↦ absurd ((probed.reach k j i q p.inside a).1 p.key)
          | no a ↦ elim (dec_lt (distance n h j) (distance n h i)) [
            | yes b ↦ absurd ((probed.reach k i j p q.inside b).1 q.key)
            | no b ↦ distance-injective n h (home-lt k) i j p.inside q.inside (omega arith)
          ]
        ]

    pub view-HoldsAt :
        (k : Key) (i : ℕ) → HoldsAt entries k i → view entries k ≡ (slot entries i).ptr
    view-HoldsAt k i h = view_at entries k i h (λ j q. HoldsAt-unique k j i q h)

    -- A key is in the table only before the first unused slot on its way.
    pub absent_behind_unused :
        (k : Key) (r : ℕ)
        → r < length entries
        → is_used (slot entries r) ≡ false
        → ((j : ℕ)
            → j < length entries
            → distance (length entries) (home entries k) j
              < distance (length entries) (home entries k) r
            → (slot entries j).key ≢ k)
        → (i : ℕ) → ¬ HoldsAt entries k i
    absent_behind_unused k r lt u before i h =
        let n = length entries in
        let first = home entries k in
        elim (dec_lt (distance n first i) (distance n first r)) [
          | yes p ↦ before i h.inside p h.key
          | no p ↦ elim (dec_lt (distance n first r) (distance n first i)) [
            | yes q ↦ false≢true (sym u ∙ (probed.reach k i r h lt q).0)
            | no q ↦
                let same = distance-injective n first (home-lt k) i r h.inside lt (omega arith) in
                false≢true (sym u ∙ subst (λ x. is_used (slot entries x) ≡ true) same h.used)
          ]
        ]

pub replicate-IsProbed : (hash : Key → ℕ) (n : ℕ) → 0 < n → IsProbed hash (replicate n blank)
replicate-IsProbed hash n pos = record {
  nonempty = rw (length-replicate n blank) pos;
  blanks = λ i lt u. rw (get_or-replicate n i blank);
  reach = λ k i j h lt d.
      absurd (false≢true (subst (λ x. is_used x ≡ true) (get_or-replicate n i blank) h.used));
}

pub view-replicate : (n : ℕ) (k : Key) → view (replicate n blank) k ≡ Ptr.empty
unfolding view
view-replicate zero k = refl
view-replicate (suc n) k = view-replicate n k
