-- ===== src/Kvs/RemoveUncached.antt =====
-- `remove` of src/KVS.cpp of a key that the cache map does not have, where it has room.
use kvs_cash_machine.ByteArray.{ByteArray}
use kvs_cash_machine.CacheMap.{CacheMap}
use kvs_cash_machine.Common.{
  ℕ, suc, ◌+◌, ◌%◌, ◌<◌, ◌≡◌, ◌∙◌, ◌⊎◌, inl, inr, sym, ap, refl, Option, lt→ltb, le→ltb_false,
  arith,
}
use kvs_cash_machine.Key.{Key}
use kvs_cash_machine.Key.Laws.{eq_refl}
use kvs_cash_machine.Kvs.{Kvs, shard_at, remove_by_type, removed_by_type}
use kvs_cash_machine.Kvs.Became.{Covers, IsTight, Became, Changed-Became}
use kvs_cash_machine.Kvs.Counter.{alive_dead, alive_high}
use kvs_cash_machine.StorageHashTable.Number.{one_if}
use native.Mathlib.Decide.{ℕ_discrete, dec_lt}
use kvs_cash_machine.Kvs.After.{after}
use kvs_cash_machine.Kvs.Change.{Changed-Represents}
use kvs_cash_machine.Kvs.Room.{HasRoom, on_shard_lem}
use kvs_cash_machine.Kvs.Stages.{lookup_low, Called, then_put}
use kvs_cash_machine.Kvs.Valid.{state_at, Coherent, Represents, shard_index-lt, alive}
use kvs_cash_machine.Outcome.{ok}
use kvs_cash_machine.Probe.Table.{view}
use kvs_cash_machine.Ptr
use kvs_cash_machine.Ptr.{Ptr, PtrType, present, deleted, nonexistent, empty_ptr, nonexistent_v}
use kvs_cash_machine.Shard.{State, get_shard_index}
use kvs_cash_machine.Shard.Methods.{remove_entry}
use kvs_cash_machine.Shard.Remove.{Removed, cleared, cleared-lt, cleared_low, remove_entry-Removed}
use kvs_cash_machine.Shard.Sound.{raw, entry-cases}
use kvs_cash_machine.Shard.Valid.{Holds}
use kvs_cash_machine.ShardBuilder.Step.{cached}
use kvs_cash_machine.StorageHashTable.{StorageHashTable}
use kvs_cash_machine.Value.{Value}
use kvs_cash_machine.Kvs.OneKey
use kvs_cash_machine.Kvs.OneKey.{few_alive, some_alive}

module _ (xxh3 : ByteArray → ℕ → ℕ) (f : Key → Option Value) (s : Kvs) (r : Represents xxh3 f s)
    (key : Key) where
  abbrev n : ℕ
  n = get_shard_index xxh3 key

  abbrev t : StorageHashTable
  t = r.tables n

  abbrev v : ByteArray
  v = r.files n

  abbrev c : ℕ
  c = cached s.cache_map key

  holds : Holds xxh3 n (state_at s n) t v
  holds = r.valid.holds n (shard_index-lt xxh3 key)

  coherent : Coherent c (raw t key)
  coherent = r.valid.coherent key

  abbrev without : Key → Option Value
  without = OneKey.without f key

  abbrev a : ℕ
  a = (shard_at s n).alive_values_cnt

  abbrev gone : Ptr
  gone = cleared xxh3 n (state_at s n) t v key

  gone_cases :
      (a : ℕ) (s' : State) (t' : StorageHashTable)
      → Removed xxh3 n (state_at s n) t v key a s' t'
      → (Ptr.get_type gone ≡ empty_ptr) ⊎ (Ptr.get_type gone ≡ deleted)
  gone_cases a s' t' w =
      let same : view t'.entries key ≡ gone = w.pointers key ∙ rw (eq_refl key) refl in
      elim (entry-cases xxh3 t' v w.holds.sound key) [
        | inl (e, type) ↦ inl (ap Ptr.get_type (sym same) ∙ type)
        | inr (inl (low, type)) ↦ inr (ap Ptr.get_type (sym same) ∙ type)
        | inr (inr (high, type)) ↦
            absurd (omega (arith, high, ap Ptr.raw same, cleared-lt xxh3 n (state_at s n) t v key))
      ]

  module _ (e : c ≡ 127) (s' : State) (t' : StorageHashTable)
      (w : Removed xxh3 n (state_at s n) t v key ((a + 255) % 256) s' t') where
    own : raw t' key ≡ gone.raw
    own = ap Ptr.raw (w.pointers key) ∙ rw (eq_refl key) refl

    removed_counted :
        (m' : CacheMap)
        → s'.shard.alive_values_cnt + one_if (alive s.cache_map t key)
          ≡ a + one_if (alive m' t' key)
    removed_counted m' =
        let now =
          alive_dead m' t' key (omega (arith, own, cleared-lt xxh3 n (state_at s n) t v key)) in
        elim (dec_lt (raw t key) 128) [
          | yes dead ↦
              rw (now, alive_dead s.cache_map t key dead, w.count, lt→ltb (raw t key) 128 dead) refl
          | no high ↦
              let before = alive_high s.cache_map t key (omega (arith, e)) (omega arith) in
              rw (now, before, w.count, le→ltb_false (raw t key) 128 (omega arith))
                (omega (arith, few_alive xxh3 f s r key, some_alive xxh3 f s r key before))
        ]

    not_stored : Covers s.cache_map t key → raw t key ≡ 127
    not_stored covers = elim (ℕ_discrete (raw t key) 127) [
      | yes z ↦ z
      | no ne ↦ elim (covers ne) [
        | inl low ↦ absurd (omega (arith, low, e))
        | inr high ↦ absurd (omega (arith, high, e))
      ]
    ]

    removed-Covers : (m' : CacheMap) → Covers s.cache_map t key → Covers m' t' key
    removed-Covers m' covers there =
        let z = not_stored covers in
        absurd (
          there (
            own
            ∙ ap Ptr.raw (cleared_low xxh3 n (state_at s n) t v key holds (omega (arith, z)))
            ∙ z))

    removed-IsTight : Covers s.cache_map t key → IsTight a t → IsTight s'.shard.alive_values_cnt t'
    removed-IsTight covers tight =
        let z = not_stored covers in
        let same : s'.shard.alive_values_cnt ≡ a =
          w.count ∙ rw (lt→ltb (raw t key) 128 (omega (arith, z))) refl in
        omega (arith, same, w.used, tight)

  -- A key that the cache map does not have is removed from its shard, and is put into the cache map
  -- as NONEXISTENT.
  pub remove_uncached :
      HasRoom s.cache_map
      → c ≡ 127
      → (s' : Kvs) × (remove_by_type xxh3 n key 0 (view s.cache_map.entries key) empty_ptr s
          ≡ (ok tt, s'))
        × (r' : Represents xxh3 without s') × Became xxh3 f without s s' r r' n 0
  unfolding remove_by_type removed_by_type Ptr.of_type
  remove_uncached room e =
      let (s', t', removed, w) = remove_entry-Removed xxh3 n (state_at s n) t v key holds in
      let low : gone.raw < 128 = cleared-lt xxh3 n (state_at s n) t v key in
      let c : Called xxh3 f s r key s' t' v = record {
        holds = w.holds;
        framed = w.framed;
        pointers = λ q other. ap Ptr.raw (w.pointers q) ∙ rw other refl;
        reads = λ q other. w.reads q ∙ rw other refl;
      } in
      let (m', put, self, grown, changed) =
        then_put xxh3 f s r key s' t' v c (record { raw = nonexistent_v }) room
          (λ z. omega (arith, z))
          (record {
            byte = omega arith;
            present = λ z. absurd (omega (arith, z));
            deleted = λ z. absurd (omega (arith, z));
            nonexistent = λ _. omega (arith, own e s' t' w, low);
          })
          (λ m' _. removed_counted e s' t' w m') in
      let lookup_none =
        OneKey.without_own f key ∙ sym (lookup_low m' t' v key (omega (arith, self))) in
      (
        after s n s' m' (λ k. s.random (suc k)),
        rw (on_shard_lem n (remove_entry xxh3 n key) s _ s' removed)
            (elim (gone_cases _ s' t' w) [ inl type ↦ rw type put | inr type ↦ rw type put ]),
        Changed-Represents xxh3 f s r key s' t' v m' changed (λ k. s.random (suc k)) without
            lookup_none (OneKey.without_other f key),
        Changed-Became xxh3 f s r key s' t' v m' changed (λ k. s.random (suc k)) without lookup_none
            (OneKey.without_other f key) 0 grown (omega (arith, w.used))
            (removed-Covers e s' t' w m') (removed-IsTight e s' t' w),
      )
