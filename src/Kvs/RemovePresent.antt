-- ===== src/Kvs/RemovePresent.antt =====
-- `remove` of src/KVS.cpp of a key that the cache map has as present, where it has room.
use kvs_cash_machine.ByteArray.{ByteArray}
use kvs_cash_machine.CacheMap
use kvs_cash_machine.CacheMap.{CacheMap}
use kvs_cash_machine.Common.{
  ℕ, ◌+◌, ◌*◌, ◌%◌, ◌≤◌, ◌<◌, ◌≡◌, ◌≢◌, ◌∙◌, inl, sym, ap, refl, false, Option, if◌then◌else◌, ◌==◌,
  ==_false, get_or-set_ne, length, ==_true, arith,
}
use mathlib.Core.Path.{subst}
use kvs_cash_machine.Key.{Key}
use kvs_cash_machine.Key.Laws.{by_key}
use kvs_cash_machine.Kvs
use kvs_cash_machine.Kvs.{
  Kvs, shard_at, remove, remove_by_type, removed_by_type, rebuild_if_required, rebuild_shard,
  put_and_push, on_shard,
}
use kvs_cash_machine.Probe.Seek.{is_absent}
use kvs_cash_machine.Kvs.Became.{IsTight, IsCovered, Became, Settled, now-IsCovered}
use kvs_cash_machine.Kvs.Counter.{alive_low, alive_high}
use native.Mathlib.Decide.{ℕ_discrete}
use kvs_cash_machine.Kvs.After.{at, after}
use kvs_cash_machine.Kvs.Change.{Changed, Changed-Represents}
use kvs_cash_machine.Kvs.Push.{not_due}
use kvs_cash_machine.Kvs.Became.{AreTight, Steady, now-AreTight}
use kvs_cash_machine.Kvs.Rebuild.{NoneForgotten}
use kvs_cash_machine.Kvs.Room.{
  HasRoom, Grown-refl, on_shard_lem, get_in_cache_lem, set_in_cache_lem,
}
use kvs_cash_machine.Kvs.Stages.{lookup_low}
use kvs_cash_machine.Kvs.Valid.{state_at, Coherent, lookup, Represents, shard_index-lt}
use kvs_cash_machine.Outcome.{ok}
use kvs_cash_machine.Probe.Table.{view}
use kvs_cash_machine.Ptr.{Ptr, present}
use kvs_cash_machine.Shard
use kvs_cash_machine.Shard.{State, hash, get_shard_index}
use kvs_cash_machine.Shard.Counter.{set_count, decrement_alive_values_cnt}
use kvs_cash_machine.Shard.Frame.{Framed-refl}
use kvs_cash_machine.Shard.Sound.{raw, used-le}
use kvs_cash_machine.Shard.Valid.{Holds, Holds-count}
use kvs_cash_machine.ShardBuilder.Step.{cached}
use kvs_cash_machine.StorageHashTable.{StorageHashTable}
use kvs_cash_machine.Value.{Value}
use kvs_cash_machine.Kvs.Due.{rebuild_if_required-Represents}
use kvs_cash_machine.Kvs.OneKey
use kvs_cash_machine.Kvs.OneKey.{few_alive, some_alive}

module _ (xxh3 : ByteArray → ℕ → ℕ) (f : Key → Option Value) (s : Kvs) (r : Represents xxh3 f s)
    (key : Key) where
  abbrev n : ℕ
  n = get_shard_index xxh3 key

  abbrev t : StorageHashTable
  t = r.tables n

  abbrev v : ByteArray
  v = r.files n

  abbrev c : ℕ
  c = cached s.cache_map key

  holds : Holds xxh3 n (state_at s n) t v
  holds = r.valid.holds n (shard_index-lt xxh3 key)

  coherent : Coherent c (raw t key)
  coherent = r.valid.coherent key

  abbrev without : Key → Option Value
  without = OneKey.without f key

  abbrev a : ℕ
  a = (shard_at s n).alive_values_cnt

  -- A present pointer of the cache map is made a deleted one, and the shard's counter goes down.
  module _ (high : 128 ≤ c) (slot : ℕ)
      (located : CacheMap.locate (hash xxh3) s.cache_map key ≡ ok slot) where
    inside : n < length s.shards
    inside = rw r.valid.number (shard_index-lt xxh3 key)

    index : c % 128 < 45
    index = omega (
      arith,
      coherent.present high,
      (holds.range key (λ z. omega (arith, z, coherent.present high, high))).1,
      used-le xxh3 t v holds.sound,
    )

    flag_cleared :
        (m' : CacheMap) × (Kvs.set_in_cache slot (view s.cache_map.entries key) false s
          ≡ (ok tt, record s { cache_map = m' }))
        × Kvs.Room.Cached xxh3 s r.valid.cache
            (record { key = key; ptr = record { raw = c % 128 } })
            m'
    flag_cleared =
        set_in_cache_lem xxh3 s r.valid.cache key slot false located coherent.byte
          (omega (arith, index))

    abbrev m' : CacheMap
    m' = flag_cleared.0

    self : cached m' key ≡ c % 128
    self = ap Ptr.raw flag_cleared.2.self

    abbrev less : State
    less = set_count (state_at s n) (((state_at s n).shard.alive_values_cnt + 255) % 256)

    less-Changed : Changed xxh3 f s r key less t v m'
    less-Changed = record {
      holds = Holds-count xxh3 n (state_at s n) t v holds _;
      framed = Framed-refl;
      pointers = λ q _. refl;
      reads = λ q _. refl;
      cache = flag_cleared.2.cache;
      others = λ q other. ap Ptr.raw (flag_cleared.2.others q other);
      coherent = record {
        byte = omega (arith, self);
        present = λ z. absurd (omega (arith, self, z));
        deleted = λ _. omega (arith, self, coherent.present high, high, coherent.byte);
        nonexistent = λ z. absurd (omega (arith, self, z, index));
      };
      counted =
          let before =
            alive_high s.cache_map t key (omega (arith, high))
              (omega (arith, high, coherent.present high)) in
          rw (before, alive_low m' t key (omega (arith, self, index)))
            (omega (arith, few_alive xxh3 f s r key, some_alive xxh3 f s r key before));
    }

    abbrev s₁ : Kvs
    s₁ = after s n less m' s.random

    less_own : without key ≡ lookup m' t v key
    less_own = OneKey.without_own f key ∙ sym (lookup_low m' t v key (omega (arith, self, index)))

    abbrev less-Represents : Represents xxh3 without s₁
    less-Represents =
        Changed-Represents xxh3 f s r key less t v m' less-Changed s.random without less_own
          (OneKey.without_other f key)

    known_less :
        NoneForgotten xxh3 f s r n (shard_index-lt xxh3 key)
        → NoneForgotten xxh3 without s₁ less-Represents n (shard_index-lt xxh3 key)
    known_less known =
        by_key key (λ q. raw (at n t r.tables n) q ≢ 127 → cached m' q ≢ 126)
          (λ _ z. omega (arith, self, index, z))
          (λ q other ne z.
            known q (λ y. ne (rw (==_true {a = n} refl) y))
              (ap Ptr.raw (sym (flag_cleared.2.others q other)) ∙ z))

    less-used : m'.used_size ≡ s.cache_map.used_size
    less-used =
        let stored : is_absent s.cache_map.entries key ≡ false = ground (arith, high) in
        flag_cleared.2.used ∙ rw stored (omega arith)

    room_less : HasRoom s.cache_map → HasRoom m'
    room_less room = omega (arith, less-used, flag_cleared.2.size, room)

    less-IsCovered : IsCovered xxh3 f s r → IsCovered xxh3 without s₁ less-Represents
    less-IsCovered =
        now-IsCovered xxh3 f s r key less t v m' less-Changed s.random without less_own
          (OneKey.without_other f key) (λ _ _. inl (omega (arith, self, index)))

    -- The rebuild, if one is due, comes after the change in the cache map.
    less-Settled :
        (s' : Kvs) (r' : Represents xxh3 without s')
        → Settled xxh3 without without s₁ s' less-Represents r' n
        → Became xxh3 f without s s' r r' n 0
    less-Settled s' r' settled = record {
      grown = record {
        size = settled.size ∙ flag_cleared.2.size;
        used = omega (arith, settled.used, less-used);
      };
      tables = λ j lt. elim (ℕ_discrete n j) [
        | yes e ↦
            subst
              (λ j. (r'.tables j).used_size ≤ (r.tables j).used_size + (if n == j then 0 else 0)) e
              (let fewer = settled.fewer n (shard_index-lt xxh3 key) in
                let same : (at n t r.tables n).used_size ≡ t.used_size =
                  rw (==_true {a = n} refl) refl in
                omega (arith, fewer, same))
        | no ne ↦
            let fewer = settled.fewer j lt in
            let same : (at n t r.tables j).used_size ≡ (r.tables j).used_size =
              rw (==_false ne) refl in
            omega (arith, fewer, same)
      ];
      covered = λ covered. settled.covered (less-IsCovered covered);
      tight = λ _ tight j lt. elim (ℕ_discrete n j) [
        | yes e ↦ subst (λ j. IsTight (shard_at s' j).alive_values_cnt (r'.tables j)) e settled.here
        | no ne ↦
            settled.others j lt ne
              (rw (==_false ne, get_or-set_ne s.shards less.shard (Shard.new 0 0) ne) (tight j lt))
      ];
    }

    pub remove_present :
        NoneForgotten xxh3 f s r n (shard_index-lt xxh3 key)
        → HasRoom s.cache_map
        → (s' : Kvs) × (remove_by_type xxh3 n key slot (view s.cache_map.entries key) present s
            ≡ (ok tt, s'))
          × (r' : Represents xxh3 without s') × Became xxh3 f without s s' r r' n 0
    unfolding remove_by_type decrement_alive_values_cnt
    remove_present known room =
        let (s', eq, represents, settled) =
          rebuild_if_required-Represents xxh3 without s₁ less-Represents n (shard_index-lt xxh3 key)
            (known_less known) (room_less room) in
        (s', rw flag_cleared.1 eq, represents, less-Settled s' represents settled)

    -- No rebuild is due after the removal.
    pub remove_present-Steady :
        AreTight xxh3 f s r
        → t.used_size + 2 ≤ 2 * a
        → (s' : Kvs) × (remove_by_type xxh3 n key slot (view s.cache_map.entries key) present s
            ≡ (ok tt, s'))
          × Steady xxh3 without (length s.cache_map.entries) s'
    unfolding remove_by_type decrement_alive_values_cnt
    remove_present-Steady tight enough =
        let own : IsTight less.shard.alive_values_cnt t =
          omega (arith, few_alive xxh3 f s r key, enough) in
        let all =
          now-AreTight xxh3 f s r key less t v m' less-Changed s.random without less_own
            (OneKey.without_other f key) own tight in
        (
          s₁,
          rw flag_cleared.1 (
              not_due xxh3 s₁ n (less-Represents.tables n) (less-Represents.files n)
                (less-Represents.valid.holds n (shard_index-lt xxh3 key))
                (all n (shard_index-lt xxh3 key))),
          record { represents = less-Represents; tight = all; size = flag_cleared.2.size },
        )
