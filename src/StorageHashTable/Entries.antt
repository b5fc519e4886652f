-- ===== src/StorageHashTable/Entries.antt =====
-- `getEntries`: the used entries, each once.
use kvs_cash_machine.Common.{
  ℕ, suc, ◌≡◌, refl, ◌∙◌, true, false, Bool-cases, inl, inr, List, [], ◌∷◌, length, arith,
}
use kvs_cash_machine.Entry.{Entry, is_used}
use kvs_cash_machine.Key
use kvs_cash_machine.Key.{Key}
use kvs_cash_machine.Key.Laws.{eq_refl}
use kvs_cash_machine.Probe.Table.{
  view, count_used, HoldsAt, HoldsAt-here, HoldsAt-there, view-absent, IsProbed, HoldsAt-unique,
}
use kvs_cash_machine.Ptr
use kvs_cash_machine.Ptr.{Ptr}
use kvs_cash_machine.StorageHashTable.{StorageHashTable, used_entries, get_entries}

-- Every entry is used, and no key has a second one.
abbrev pub AreDistinct : List Entry → Type 0
AreDistinct [] = Unit
AreDistinct (e ∷ es) = (is_used e ≡ true) × (view es e.key ≡ Ptr.empty) × AreDistinct es

-- The byte of the pointer under a key in a list of entries.
abbrev pub listed : List Entry → Key → ℕ
listed es k = (view es k).raw

module _ (e : Entry) (es : List Entry) (used : is_used e ≡ true) where
  pub listed-here : view (e ∷ es) e.key ≡ e.ptr
  unfolding view
  listed-here = rw (used, eq_refl e.key) refl

  pub listed-there : (q : Key) → Key.eq e.key q ≡ false → view (e ∷ es) q ≡ view es q
  unfolding view
  listed-there q other = rw (used, other) refl

pub view-used_entries : (es : List Entry) (k : Key) → view (used_entries es) k ≡ view es k
unfolding view used_entries
view-used_entries [] k = refl
view-used_entries (e ∷ es) k = ground (arith, view-used_entries es k)

pub length-used_entries : (es : List Entry) → length (used_entries es) ≡ count_used es
unfolding used_entries count_used
length-used_entries [] = refl
length-used_entries (e ∷ es) = ground (arith, length-used_entries es)

used_entries-AreDistinct :
    (es : List Entry)
    → ((k : Key) (i j : ℕ) → HoldsAt es k i → HoldsAt es k j → i ≡ j)
    → AreDistinct (used_entries es)
unfolding used_entries
used_entries-AreDistinct [] unique = tt
used_entries-AreDistinct (e ∷ es) unique =
    let rest =
      used_entries-AreDistinct es (λ k i j p q.
        omega (arith, unique k (suc i) (suc j) (HoldsAt-there p) (HoldsAt-there q))) in
    elim (Bool-cases (is_used e)) [
      | inl u ↦ rw u (
        u,
        view-used_entries es e.key
            ∙ view-absent es e.key (λ i h. omega (
              arith,
              unique e.key 0 (suc i) (HoldsAt-here (rw (u, eq_refl e.key))) (HoldsAt-there h),
            )),
        rest,
      )
      | inr u ↦ rw u rest
    ]

-- The entries that `getEntries` gives for a probed table are those that the table as a map has, each
-- used and with a key of its own, and their number is that of the used slots.
pub get_entries_lem :
    (hash : Key → ℕ) (t : StorageHashTable)
    → IsProbed hash t.entries
    → ((k : Key) → view (get_entries t) k ≡ view t.entries k)
      × AreDistinct (get_entries t)
      × (length (get_entries t) ≡ count_used t.entries)
unfolding get_entries
get_entries_lem hash t probed = (
  view-used_entries t.entries,
  used_entries-AreDistinct t.entries (HoldsAt-unique hash probed),
  length-used_entries t.entries,
)
