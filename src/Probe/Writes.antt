-- ===== src/Probe/Writes.antt =====
-- Writes to one slot that keep the invariant of linear probing: a new or replaced entry, a changed
-- pointer, and the removal of the last entry of a run.
use kvs_cash_machine.Common.{
  ℕ, ◌<◌, ◌≡◌, ◌≢◌, ◌↔◌, ap, ◌⊎◌, inl, inr, sym, ◌∙◌, true, false, Bool-cases, List, if◌then◌else◌,
  length, set, length-set, get_or-set_self, get_or-set_ne, arith,
}
use mathlib.Core.Path.{subst}
use mathlib.Core.Bool.{false≢true}
use native.Mathlib.Decide.{ℕ_discrete, dec_lt}
use kvs_cash_machine.Entry.{Entry, blank, is_used}
use kvs_cash_machine.Key
use kvs_cash_machine.Key.{Key}
use kvs_cash_machine.Key.Laws.{eq_iff}
use kvs_cash_machine.Ptr
use kvs_cash_machine.Ptr.{Ptr}
use kvs_cash_machine.Probe.{slot}
use kvs_cash_machine.Probe.Distance.{
  distance, next, next-lt, distance-next, distance-last, distance-lt, distance-injective,
}
use kvs_cash_machine.Probe.Table.{
  view, HoldsAt, view-absent, view-cases, home, IsProbed, home-lt, HoldsAt-unique, view-HoldsAt,
}

-- `new` reads as `entries`, but for the pointer `p` under `k`.
pub record Wrote (hash : Key → ℕ) (entries : List Entry) (k : Key) (p : Ptr) (new : List Entry)
    : Type 0 where
  pub probed : IsProbed hash new
  pub size : length new ≡ length entries
  pub reads : (q : Key) → view new q ≡ (if Key.eq k q then p else view entries q)

-- Slot `r` can take an entry under `k`: it is unused or holds `k`, and it is the first such slot.
pub record IsFree (hash : Key → ℕ) (entries : List Entry) (k : Key) (r : ℕ) : Type 0 where
  pub inside : r < length entries
  pub hit : (is_used (slot entries r) ≡ false) ⊎ ((slot entries r).key ≡ k)
  pub before :
      (j : ℕ)
      → j < length entries
      → distance (length entries) (home hash entries k) j
        < distance (length entries) (home hash entries k) r
      → (is_used (slot entries j) ≡ true) × ((slot entries j).key ≢ k)

module _ (entries : List Entry) (r : ℕ) (e : Entry) where
  slot-set_ne : (j : ℕ) → j ≢ r → slot (set entries r e) j ≡ slot entries j
  slot-set_ne j ne = get_or-set_ne entries e blank (λ q. ne (sym q))

  slot-set_self : r < length entries → slot (set entries r e) r ≡ e
  slot-set_self lt = get_or-set_self entries r e blank lt

  HoldsAt-set_ne : (k : Key) (j : ℕ) → j ≢ r → HoldsAt (set entries r e) k j ↔ HoldsAt entries k j
  HoldsAt-set_ne k j ne =
      let same = slot-set_ne j ne in
      (
        λ h. record {
          inside = omega (arith, length-set entries r e);
          used = rw (← same) h.used;
          key = rw (← same) h.key;
        },
        λ h. record {
          inside = omega (arith, length-set entries r e);
          used = rw same h.used;
          key = rw same h.key;
        },
      )

  HoldsAt-set_self :
      (k : Key)
      → r < length entries
      → HoldsAt (set entries r e) k r ↔ ((is_used e ≡ true) × (e.key ≡ k))
  HoldsAt-set_self k lt =
      let same = slot-set_self lt in
      (
        λ h. (subst (λ x. is_used x ≡ true) same h.used, subst (λ x. x.key ≡ k) same h.key),
        λ h. record {
          inside = omega (arith, length-set entries r e);
          used = rw same h.0;
          key = rw same h.1;
        },
      )

-- A write to a slot leaves the pointers of the keys that the slot holds neither before nor after.
view-set_other :
    (hash : Key → ℕ) (entries : List Entry) (r : ℕ) (e : Entry)
    → IsProbed hash entries
    → IsProbed hash (set entries r e)
    → (q : Key) → ¬ HoldsAt entries q r
    → ¬ HoldsAt (set entries r e) q r
    → view (set entries r e) q ≡ view entries q
view-set_other hash entries r e old new q no_old no_new = elim (view-cases entries q) [
  | inl (i, h) ↦
      let ne : i ≢ r = λ s. no_old (subst (HoldsAt entries q) s h) in
      view-HoldsAt hash new q i ((HoldsAt-set_ne entries r e q i ne).1 h)
      ∙ ap (λ x. x.ptr) (slot-set_ne entries r e i ne)
      ∙ sym (view-HoldsAt hash old q i h)
  | inr never ↦
      view-absent (set entries r e) q (λ i h. elim (ℕ_discrete i r) [
        | yes s ↦ no_new (subst (HoldsAt (set entries r e) q) s h)
        | no ne ↦ never i ((HoldsAt-set_ne entries r e q i ne).0 h)
      ])
      ∙ sym (view-absent entries q never)
]

module _ (hash : Key → ℕ) (entries : List Entry) (probed : IsProbed hash entries) (e : Entry)
    (used : is_used e ≡ true) (r : ℕ) (free : IsFree hash entries e.key r) where
  insert-reach :
      (k : Key) (i j : ℕ)
      → HoldsAt (set entries r e) k i
      → j < length entries
      → distance (length entries) (home hash entries k) j
        < distance (length entries) (home hash entries k) i
      → (is_used (slot (set entries r e) j) ≡ true) × ((slot (set entries r e) j).key ≢ k)
  insert-reach k i j h lt d = elim (ℕ_discrete j r) [
    | yes jr ↦ elim (ℕ_discrete i r) [
      | yes ir ↦ absurd (omega (arith, subst (λ x. D j < D x) (ir ∙ sym jr) d))
      | no ne ↦
          let old =
            probed.reach k i r ((HoldsAt-set_ne entries r e k i ne).0 h) free.inside
              (subst (λ x. D x < D i) jr d) in
          rw (jr, slot-set_self entries r e free.inside) (used, displaced old)
    ]
    | no jr ↦ rw (slot-set_ne entries r e j jr) (elim (ℕ_discrete i r) [
      | yes ir ↦
          let key =
            ((HoldsAt-set_self entries r e k free.inside).0
              (subst (HoldsAt (set entries r e) k) ir h)).1 in
          subst (Passes j) key (
            free.before j lt (
              subst (λ x. distance n (home hash entries x) j < distance n (home hash entries x) r)
                (sym key) (subst (λ x. D j < D x) ir d)))
      | no ne ↦ probed.reach k i j ((HoldsAt-set_ne entries r e k i ne).0 h) lt d
    ])
  ]
    where
      n : ℕ
      n = length entries

      D : ℕ → ℕ
      D x = distance n (home hash entries k) x

      Passes : ℕ → Key → Type 0
      Passes x q = (is_used (slot entries x) ≡ true) × ((slot entries x).key ≢ q)

      displaced : Passes r k → e.key ≢ k
      displaced old same = elim free.hit [
        | inl unused ↦ cc (old.0)
        | inr here ↦ old.1 (here ∙ same)
      ]

  insert-IsProbed : IsProbed hash (set entries r e)
  insert-IsProbed =
      let size = length-set entries r e in
      record {
        nonempty = omega (arith, probed.nonempty);
        blanks = λ i lt. elim (ℕ_discrete i r) [
          | yes ir ↦ λ u. absurd (
              false≢true (
                sym u
                ∙ subst (λ x. is_used (slot (set entries r e) x) ≡ true) (sym ir)
                    (rw (slot-set_self entries r e free.inside) used)))
          | no ne ↦
              subst (λ x. is_used x ≡ false → x.key ≡ Key.default)
                (sym (slot-set_ne entries r e i ne)) (probed.blanks i (omega arith))
        ];
        reach = λ k i j h lt d. insert-reach k i j h (omega arith) (rw size at d);
      }

  -- Writing an entry to the first slot that can take it updates the map at its key.
  pub insert-Wrote : Wrote hash entries e.key e.ptr (set entries r e)
  insert-Wrote = record { probed = insert-IsProbed; size = length-set entries r e; reads = reads }
    where
      old_other : (q : Key) → e.key ≢ q → ¬ HoldsAt entries q r
      old_other q ne h = elim free.hit [
        | inl unused ↦ cc (h.used)
        | inr here ↦ ne (sym here ∙ h.key)
      ]

      reads :
          (q : Key) → view (set entries r e) q ≡ (if Key.eq e.key q then e.ptr else view entries q)
      reads q = elim (Bool-cases (Key.eq e.key q)) [
        | inl same ↦ rw same (
            view-HoldsAt hash insert-IsProbed q r
              ((HoldsAt-set_self entries r e q free.inside).1 (used, (eq_iff e.key q).0 same))
            ∙ ap (λ x. x.ptr) (slot-set_self entries r e free.inside))
        | inr other ↦
            let ne : e.key ≢ q = λ s. false≢true (sym other ∙ (eq_iff e.key q).1 s) in
            rw other (
              view-set_other hash entries r e probed insert-IsProbed q (old_other q ne)
                (λ h. ne ((HoldsAt-set_self entries r e q free.inside).0 h).1))
      ]

module _ (hash : Key → ℕ) (entries : List Entry) (probed : IsProbed hash entries) where
  -- The slot that holds a key can take an entry under that key.
  pub HoldsAt-IsFree : (k : Key) (i : ℕ) → HoldsAt entries k i → IsFree hash entries k i
  HoldsAt-IsFree k i h = record {
    inside = h.inside;
    hit = inr h.key;
    before = λ j lt d. probed.reach k i j h lt d;
  }

  module _ (r : ℕ) (inside : r < length entries)
      (last : is_used (slot entries (next (length entries) r)) ≡ false) where
    remove-reach :
        (k : Key) (i j : ℕ)
        → i ≢ r
        → HoldsAt entries k i
        → j < length entries
        → distance (length entries) (home hash entries k) j
          < distance (length entries) (home hash entries k) i
        → j ≢ r
    remove-reach k i j ne h lt d jr =
        let n = length entries in
        let first = home hash entries k in
        let in_range = home-lt hash probed k in
        let d' = subst (λ x. distance n first x < distance n first i) jr d in
        elim (ℕ_discrete (next n r) first) [
          | yes wraps ↦ omega (
            arith,
            d',
            distance-last n first in_range r inside wraps,
            distance-lt n first in_range i h.inside,
          )
          | no on ↦
              let step = distance-next n first in_range r inside on in
              elim (dec_lt (distance n first (next n r)) (distance n first i)) [
                | yes before ↦
                    false≢true
                      (sym last ∙ (probed.reach k i (next n r) h (next-lt n r inside) before).0)
                | no not_before ↦
                    let same =
                      distance-injective n first in_range (next n r) i (next-lt n r inside) h.inside
                        (omega (arith, d', step)) in
                    false≢true
                      (sym last ∙ subst (λ x. is_used (slot entries x) ≡ true) (sym same) h.used)
              ]
        ]

    not_HoldsAt-blank : (k : Key) → ¬ HoldsAt (set entries r blank) k r
    not_HoldsAt-blank k h = false≢true ((HoldsAt-set_self entries r blank k inside).0 h).0

    remove-IsProbed : IsProbed hash (set entries r blank)
    remove-IsProbed =
        let size = length-set entries r blank in
        record {
          nonempty = omega (arith, probed.nonempty);
          blanks = λ i lt. elim (ℕ_discrete i r) [
            | yes ir ↦ λ _. rw (ir, slot-set_self entries r blank inside)
            | no ne ↦
                subst (λ x. is_used x ≡ false → x.key ≡ Key.default)
                  (sym (slot-set_ne entries r blank i ne)) (probed.blanks i (omega arith))
          ];
          reach = λ k i j h lt d. elim (ℕ_discrete i r) [
            | yes ir ↦ absurd (not_HoldsAt-blank k (subst (HoldsAt (set entries r blank) k) ir h))
            | no ne ↦
                let old = (HoldsAt-set_ne entries r blank k i ne).0 h in
                let lt' : j < length entries = omega arith in
                let d' = rw size at d in
                rw (slot-set_ne entries r blank j (remove-reach k i j ne old lt' d'))
                  (probed.reach k i j old lt' d')
          ];
        }

    -- Blanking a used slot whose next slot is unused takes its key out of the map, and leaves every
    -- other key.
    pub remove-Wrote :
        (k : Key) → HoldsAt entries k r → Wrote hash entries k Ptr.empty (set entries r blank)
    remove-Wrote k h = record {
      probed = remove-IsProbed;
      size = length-set entries r blank;
      reads = λ q. elim (Bool-cases (Key.eq k q)) [
        | inl same ↦ rw same (view-absent (set entries r blank) q (gone q ((eq_iff k q).0 same)))
        | inr other ↦ rw other (
            view-set_other hash entries r blank probed remove-IsProbed q
              (λ g. false≢true (sym other ∙ (eq_iff k q).1 (sym h.key ∙ g.key)))
              (not_HoldsAt-blank q))
      ];
    }
      where
        gone : (q : Key) → k ≡ q → (i : ℕ) → ¬ HoldsAt (set entries r blank) q i
        gone q same i g = elim (ℕ_discrete i r) [
          | yes ir ↦ not_HoldsAt-blank q (subst (HoldsAt (set entries r blank) q) ir g)
          | no ne ↦ ne (
              HoldsAt-unique hash probed q i r ((HoldsAt-set_ne entries r blank q i ne).0 g)
                (subst (λ x. HoldsAt entries x r) same h))
        ]
