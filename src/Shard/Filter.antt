-- ===== src/Shard/Filter.antt =====
-- The filter that the constructor of src/Shard.cpp builds from the entries of a table.
use kvs_cash_machine.BloomFilter
use kvs_cash_machine.BloomFilter.Laws.{add_lem, add_keep}
use kvs_cash_machine.BloomFilter.{BloomFilter}
use kvs_cash_machine.ByteArray.{ByteArray}
use kvs_cash_machine.Common.{
  ℕ, ◌≡◌, ◌≢◌, ◌∙◌, refl, true, Bool-cases, inl, inr, List, [], ◌∷◌, arith,
}
use mathlib.Core.Path.{subst}
use kvs_cash_machine.Entry.{Entry}
use kvs_cash_machine.Key
use kvs_cash_machine.Key.Laws.{eq_iff}
use kvs_cash_machine.Key.{Key}
use kvs_cash_machine.Probe.Table.{view}
use kvs_cash_machine.Shard.{add_all}

module _ (xxh3 : ByteArray → ℕ → ℕ) where
  pub add_all-IsValid :
      (es : List Entry) (f : BloomFilter)
      → BloomFilter.Laws.IsValid xxh3 f
      → BloomFilter.Laws.IsValid xxh3 (add_all xxh3 f es)
  unfolding add_all
  add_all-IsValid [] f valid = valid
  add_all-IsValid (e ∷ es) f valid =
      add_all-IsValid es (BloomFilter.add xxh3 f e.key) (add_lem xxh3 f e.key valid).0

  add_all_keep :
      (es : List Entry) (f : BloomFilter) (q : Key)
      → BloomFilter.check_exist xxh3 f q ≡ true
      → BloomFilter.check_exist xxh3 (add_all xxh3 f es) q ≡ true
  unfolding add_all
  add_all_keep [] f q h = h
  add_all_keep (e ∷ es) f q h =
      add_all_keep es (BloomFilter.add xxh3 f e.key) q (add_keep xxh3 f e.key q h)

  -- The filter confirms every key that the entries have.
  pub add_all_confirms :
      (es : List Entry) (f : BloomFilter) (q : Key)
      → BloomFilter.Laws.IsValid xxh3 f
      → (view es q).raw ≢ 127
      → BloomFilter.check_exist xxh3 (add_all xxh3 f es) q ≡ true
  unfolding add_all view
  add_all_confirms [] f q valid ne = absurd (ne refl)
  add_all_confirms (e ∷ es) f q valid ne =
      let (still, now) = add_lem xxh3 f e.key valid in
      elim (Bool-cases (Key.eq e.key q)) [
        | inl same ↦ add_all_keep es (BloomFilter.add xxh3 f e.key) q (
            subst (λ x. BloomFilter.check_exist xxh3 (BloomFilter.add xxh3 f e.key) x ≡ true)
              ((eq_iff e.key q).0 same) now)
        | inr other ↦
            add_all_confirms es (BloomFilter.add xxh3 f e.key) q still (λ z. ne (ground arith ∙ z))
      ]
