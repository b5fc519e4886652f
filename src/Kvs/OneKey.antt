-- ===== src/Kvs/OneKey.antt =====
-- Maps from keys to values that differ at one key, and what the counter of the key's shard can be.
use kvs_cash_machine.ByteArray.{ByteArray}
use kvs_cash_machine.Common.{ℕ, ◌≤◌, ◌≡◌, refl, false, Option, none, if◌then◌else◌, true, arith}
use kvs_cash_machine.Key
use kvs_cash_machine.Key.{Key}
use kvs_cash_machine.Key.Laws.{eq_refl}
use kvs_cash_machine.Kvs.{Kvs, shard_at}
use kvs_cash_machine.Kvs.Counter.{alive_number-small, alive_number-positive}
use kvs_cash_machine.Kvs.Valid.{Represents, shard_index-lt, alive}
use kvs_cash_machine.Shard.{get_shard_index}
use kvs_cash_machine.Value.{Value}
use kvs_cash_machine.Common.{some, ◌≤◌}

module _ (f : Key → Option Value) (key : Key) where
  -- The values after the key got this one.
  abbrev pub added : Value → Key → Option Value
  added value q = if Key.eq key q then some value else f q

  pub added_own : (value : Value) → added value key ≡ some value
  added_own value = rw (eq_refl key) refl

  pub added_other : (value : Value) (q : Key) → Key.eq key q ≡ false → added value q ≡ f q
  added_other value q other = rw other refl

  -- The values without the key's.
  abbrev pub without : Key → Option Value
  without q = if Key.eq key q then none else f q

  pub without_own : without key ≡ none
  without_own = rw (eq_refl key) refl

  pub without_other : (q : Key) → Key.eq key q ≡ false → without q ≡ f q
  without_other q other = rw other refl

module _ (xxh3 : ByteArray → ℕ → ℕ) (f : Key → Option Value) (s : Kvs) (r : Represents xxh3 f s)
    (key : Key) where
  abbrev n : ℕ
  n = get_shard_index xxh3 key

  pub few_alive : (shard_at s n).alive_values_cnt ≤ 45
  few_alive = omega (
    arith,
    r.valid.counts n (shard_index-lt xxh3 key),
    alive_number-small xxh3 (r.tables n) (r.files n)
        (r.valid.holds n (shard_index-lt xxh3 key)).sound s.cache_map,
  )

  pub some_alive : alive s.cache_map (r.tables n) key ≡ true → 1 ≤ (shard_at s n).alive_values_cnt
  some_alive yes' = omega (
    arith,
    r.valid.counts n (shard_index-lt xxh3 key),
    alive_number-positive xxh3 (r.tables n) (r.files n)
        (r.valid.holds n (shard_index-lt xxh3 key)).sound s.cache_map key yes',
  )
