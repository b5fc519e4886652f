-- ===== src/Kvs/GetUncached.antt =====
-- `get` of src/KVS.cpp of a key that the cache map does not have.
use kvs_cash_machine.ByteArray.{ByteArray}
use kvs_cash_machine.Common.{
  length, ◌+◌, ℕ, suc, ◌≤◌, ◌<◌, ◌≡◌, ◌≢◌, ◌∙◌, inl, inr, sym, refl, Option, arith,
}
use native.Mathlib.Decide.{dec_lt}
use kvs_cash_machine.Key.{Key}
use kvs_cash_machine.Kvs.{Kvs, shard_at, get_by_type, cache_by_type, put_and_push}
use kvs_cash_machine.CacheMap.{CacheMap}
use kvs_cash_machine.Kvs.Became.{Covers, Became, AreTight, Steady, Changed-Became}
use kvs_cash_machine.Kvs.ThenPush.{then_push}
use kvs_cash_machine.StorageHashTable.Number.{one_if}
use kvs_cash_machine.Kvs.After.{after}
use kvs_cash_machine.Kvs.Change.{Changed-Represents}
use kvs_cash_machine.Kvs.Counter.{alive_dead, alive_high}
use kvs_cash_machine.Kvs.Room.{HasRoom, on_shard_lem}
use kvs_cash_machine.Kvs.Stages.{lookup_low, lookup_high, Called, not_changed, called, then_put}
use kvs_cash_machine.Kvs.Valid.{state_at, Coherent, lookup, Represents, shard_index-lt, alive}
use kvs_cash_machine.Outcome.{ok}
use kvs_cash_machine.Probe.Table.{view}
use kvs_cash_machine.Ptr
use kvs_cash_machine.Ptr.{Ptr, PtrType, present, deleted, nonexistent, empty_ptr, nonexistent_v}
use kvs_cash_machine.Shard.{get_shard_index}
use kvs_cash_machine.Shard.Methods.{read_value}
use kvs_cash_machine.Shard.Read.{read_value-contents}
use kvs_cash_machine.Shard.Sound.{raw, raw-lt, entry-cases, contents, contents_low}
use kvs_cash_machine.Shard.Valid.{Holds}
use kvs_cash_machine.ShardBuilder.Step.{cached}
use kvs_cash_machine.StorageHashTable.{StorageHashTable}
use kvs_cash_machine.Value.{Value}

module _ (xxh3 : ByteArray → ℕ → ℕ) (f : Key → Option Value) (s : Kvs) (r : Represents xxh3 f s)
    (key : Key) where
  abbrev n : ℕ
  n = get_shard_index xxh3 key

  abbrev t : StorageHashTable
  t = r.tables n

  abbrev v : ByteArray
  v = r.files n

  abbrev c : ℕ
  c = cached s.cache_map key

  holds : Holds xxh3 n (state_at s n) t v
  holds = r.valid.holds n (shard_index-lt xxh3 key)

  coherent : Coherent c (raw t key)
  coherent = r.valid.coherent key

  abbrev pub Roomy : Kvs → Type 0
  Roomy s' = (r' : Represents xxh3 f s') × Became xxh3 f f s s' r r' n 0

  module _ (e : c ≡ 127) where
    value_there : f key ≡ contents t v key
    value_there = r.reads key ∙ lookup_high s.cache_map t v key (omega (arith, e))

    pub shard-Called : Called xxh3 f s r key (state_at s n) t v
    shard-Called = not_changed xxh3 f s r key

    abbrev read : Kvs
    read = called xxh3 f s r key (state_at s n) t v shard-Called

    same_alive :
        (m' : CacheMap)
        → (cached m' key < 127 → raw t key < 128)
        → alive m' t key ≡ alive s.cache_map t key
    same_alive m' empty = elim (dec_lt (raw t key) 128) [
      | yes dead ↦ alive_dead m' t key dead ∙ sym (alive_dead s.cache_map t key dead)
      | no there ↦
          let high : 127 ≤ cached m' key = elim (dec_lt (cached m' key) 127) [
            | yes low ↦ absurd (omega (arith, empty low, there))
            | no high ↦ omega arith
          ] in
          alive_high m' t key high (omega arith)
          ∙ sym (alive_high s.cache_map t key (omega (arith, e)) (omega arith))
    ]

    uncovered : (m' : CacheMap) → Covers s.cache_map t key → Covers m' t key
    uncovered m' covers stored = elim (covers stored) [
      | inl low ↦ absurd (omega (arith, e, low))
      | inr high ↦ absurd (omega (arith, e, high))
    ]

    own_reads :
        (p : ℕ)
        → (p < 127 → raw t key < 128)
        → (m' : CacheMap) → cached m' key ≡ p
        → f key ≡ lookup m' t v key
    own_reads p empty m' self =
        value_there
        ∙ sym (elim (dec_lt p 127) [
          | yes low ↦
              lookup_low m' t v key (omega (arith, self, low))
              ∙ sym (contents_low t v key (empty low))
          | no high ↦ lookup_high m' t v key (omega (arith, self))
        ])

    own_counted :
        (p : ℕ)
        → (p < 127 → raw t key < 128)
        → (m' : CacheMap) → cached m' key ≡ p
        → (shard_at s n).alive_values_cnt + one_if (alive s.cache_map t key)
          ≡ (shard_at s n).alive_values_cnt + one_if (alive m' t key)
    own_counted p empty m' self =
        let same = same_alive m' (λ low. empty (omega (arith, self, low))) in rw same refl

    -- An entry that goes with the table is put into the cache map, to this end.
    abbrev pub Puts : (Kvs → Type 0) → Type 0
    Puts Done =
        (p : Ptr)
        → p.raw ≢ 127
        → Coherent p.raw (raw t key)
        → (p.raw < 127 → raw t key < 128)
        → (s' : Kvs) × (put_and_push xxh3 (record { key = key; ptr = p }) read ≡ (ok tt, s'))
          × Done s'

    pub put-Roomy : HasRoom s.cache_map → Puts Roomy
    put-Roomy room p used goes empty =
        let (m', eq, self, grown, changed) =
          then_put xxh3 f s r key (state_at s n) t v shard-Called p room used goes
            (own_counted p.raw empty) in
        let own = own_reads p.raw empty m' self in
        (
          after s n (state_at s n) m' (λ k. s.random (suc k)),
          eq,
          (
            Changed-Represents xxh3 f s r key (state_at s n) t v m' changed (λ k. s.random (suc k))
                f own (λ q _. refl),
            Changed-Became xxh3 f s r key (state_at s n) t v m' changed (λ k. s.random (suc k)) f
                own (λ q _. refl) 0 grown (omega arith) (uncovered m') (λ _ x. x),
          ),
        )

    pub put-Steady : AreTight xxh3 f s r → Puts (Steady xxh3 f (length s.cache_map.entries))
    put-Steady tight p used goes empty =
        then_push xxh3 f s r tight key (omega (arith, e)) (omega (arith, e)) (state_at s n) t v
          shard-Called (tight n (shard_index-lt xxh3 key)) p used goes f (λ q _. refl)
          (own_reads p.raw empty) (own_counted p.raw empty)

    module _ (Done : Kvs → Type 0) (put_entry : Puts Done) where
      put_nonexistent :
          raw t key < 128
          → (s' : Kvs) × (put_and_push xxh3
                (record { key = key; ptr = record { raw = nonexistent_v } })
                read
              ≡ (ok tt, s'))
            × Done s'
      put_nonexistent low =
          put_entry (record { raw = nonexistent_v }) (λ z. omega (arith, z))
            (record {
              byte = omega arith;
              present = λ z. absurd (omega (arith, z));
              deleted = λ z. absurd (omega (arith, z));
              nonexistent = λ _. low;
            })
            (λ _. low)

      cache_entry :
          (s' : Kvs) × (cache_by_type xxh3
              (record { key = key; ptr = view t.entries key })
              (Ptr.get_type (view t.entries key))
              read
            ≡ (ok tt, s'))
          × Done s'
      unfolding cache_by_type Ptr.of_type
      cache_entry = elim (entry-cases xxh3 t v holds.sound key) [
        | inl (z, type) ↦ rw type (put_nonexistent (omega (arith, z)))
        | inr (inl (low, type)) ↦ rw type (put_nonexistent (omega (arith, low)))
        | inr (inr (high, type)) ↦ rw type (
            put_entry (view t.entries key) (λ z. omega (arith, z, high))
              (record {
                byte = raw-lt xxh3 t v holds.sound key;
                present = λ _. refl;
                deleted = λ z. absurd (omega (arith, z, high));
                nonexistent = λ z. absurd (omega (arith, z, high));
              })
              (λ z. absurd (omega (arith, z, high))))
      ]

      pub get_uncached :
          (s' : Kvs) × (get_by_type xxh3 n key (view s.cache_map.entries key) empty_ptr s
            ≡ (ok (f key), s'))
          × Done s'
      unfolding get_by_type
      get_uncached =
          let (s', eq, done) = cache_entry in
          (
            s',
            rw (
              on_shard_lem n (read_value xxh3 n key) s _ (state_at s n)
                  (read_value-contents xxh3 n (state_at s n) t v holds key),
              eq,
              value_there,
            ),
            done,
          )
