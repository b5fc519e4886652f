-- ===== src/Kvs/Due.antt =====
-- `rebuildShard` of src/KVS.cpp, if it is due, where the cache map has room.
use kvs_cash_machine.ByteArray.{ByteArray}
use kvs_cash_machine.Common.{
  ℕ, ◌*◌, ◌<◌, ◌≡◌, inl, inr, Bool-cases, Option, ltb, ltb→lt, ltb_false→le, set-get_or, arith,
}
use kvs_cash_machine.Constants.{shard_number}
use kvs_cash_machine.Key.{Key}
use kvs_cash_machine.Kvs.{Kvs, rebuild_if_required}
use kvs_cash_machine.Kvs.Became.{Covers, IsCovered, Settled}
use mathlib.Core.Path.{subst}
use kvs_cash_machine.Kvs.Push.{not_due}
use kvs_cash_machine.Kvs.Rebuild.{NoneForgotten, rebuild_shard-Represents}
use kvs_cash_machine.Kvs.Room.{HasRoom, Grown-refl, on_shard_lem}
use kvs_cash_machine.Kvs.Valid.{state_at, Represents}
use kvs_cash_machine.Outcome.{ok}
use kvs_cash_machine.Shard
use kvs_cash_machine.Shard.{State, hash, get_shard_index}
use kvs_cash_machine.Shard.Counter.{is_rebuild_required}
use kvs_cash_machine.Shard.Valid.{is_rebuild_required_lem}
use kvs_cash_machine.Value.{Value}

module _ (xxh3 : ByteArray → ℕ → ℕ) where
  -- If the cache map has every key of the tables, it has none of them as NONEXISTENT.
  pub covered-NoneForgotten :
      (f : Key → Option Value) (s : Kvs) (r : Represents xxh3 f s)
      → IsCovered xxh3 f s r
      → (i : ℕ) (lt : i < shard_number) → NoneForgotten xxh3 f s r i lt
  covered-NoneForgotten f s r covered i lt k ne z =
      let covers =
        subst (λ j. Covers s.cache_map (r.tables j) k) (r.valid.own i k lt ne) (covered k) in
      elim (covers ne) [ inl low ↦ omega (arith, low, z) | inr high ↦ omega (arith, high, z) ]

  -- A rebuild, if one is due, keeps the values.
  pub rebuild_if_required-Represents :
      (f : Key → Option Value) (s : Kvs) (r : Represents xxh3 f s) (n : ℕ) (lt : n < shard_number)
      → NoneForgotten xxh3 f s r n lt
      → HasRoom s.cache_map
      → (s' : Kvs) × (rebuild_if_required xxh3 n s ≡ (ok tt, s'))
        × (r' : Represents xxh3 f s') × Settled xxh3 f f s s' r r' n
  unfolding rebuild_if_required
  rebuild_if_required-Represents f s r n lt known room =
      let h = r.valid.holds n lt in
      let test = is_rebuild_required_lem xxh3 n (state_at s n) (r.tables n) (r.files n) h in
      let used = (r.tables n).used_size in
      let alive = (state_at s n).shard.alive_values_cnt in
      let asked = on_shard_lem n (is_rebuild_required n) s _ (state_at s n) test in
      let same = set-get_or s.shards n (Shard.new 0 0) in
      elim (Bool-cases (ltb (2 * alive) used)) [
        | inl due ↦
            let (s', eq, represents, grown) =
              rebuild_shard-Represents xxh3 f s r n lt known room (ltb→lt (2 * alive) used due) in
            (s', rw (asked, same, due) eq, represents, grown)
        | inr enough ↦ (
          s,
          not_due xxh3 s n (r.tables n) (r.files n) h (ltb_false→le (2 * alive) used enough),
          r,
          record {
            grown = Grown-refl s.cache_map;
            fewer = λ j less. omega arith;
            covered = λ covered. covered;
            here = ltb_false→le (2 * alive) used enough;
            others = λ j less ne tight. tight;
          },
        )
      ]
