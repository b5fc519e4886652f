-- ===== src/Kvs/AddNew.antt =====
-- `add` of src/KVS.cpp of a key that the cache map does not have, or has as NONEXISTENT.
use kvs_cash_machine.ByteArray.{ByteArray}
use kvs_cash_machine.CacheMap.{CacheMap}
use kvs_cash_machine.Common.{
  lt→ltb, le→ltb_false, ==_false, ℕ, suc, ◌+◌, ◌≤◌, ◌<◌, ◌≡◌, ◌≢◌, ◌∙◌, ◌⊎◌, inr, sym, ap, refl,
  Option, some, length, arith,
}
use kvs_cash_machine.Constants.{value_size}
use kvs_cash_machine.Key.{Key}
use kvs_cash_machine.Key.Laws.{eq_refl}
use kvs_cash_machine.Kvs.{Kvs, shard_at, add_by_type, put_and_push}
use native.Mathlib.Decide.{dec_lt}
use kvs_cash_machine.StorageHashTable.Number.{one_if}
use kvs_cash_machine.Kvs.Became.{IsTight, AreTight, Became, Steady, Changed-Became}
use kvs_cash_machine.Kvs.ThenPush.{then_push}
use kvs_cash_machine.Kvs.Counter.{alive_dead, alive_high}
use kvs_cash_machine.Kvs.After.{after}
use kvs_cash_machine.Kvs.Change.{Changed-Represents}
use kvs_cash_machine.Kvs.Room.{HasRoom, on_shard_lem}
use kvs_cash_machine.Kvs.Stages.{lookup_high, Called, called, then_put}
use kvs_cash_machine.Kvs.Valid.{state_at, Coherent, lookup, Represents, shard_index-lt, alive}
use kvs_cash_machine.Outcome.{ok}
use kvs_cash_machine.Probe.Table.{view}
use kvs_cash_machine.Ptr.{Ptr, PtrType, empty_ptr}
use kvs_cash_machine.Shard.{State, get_shard_index}
use kvs_cash_machine.Shard.Methods.{write_value}
use kvs_cash_machine.Shard.Overwrite.{Written}
use kvs_cash_machine.Shard.Write.{write_value-Written}
use kvs_cash_machine.Shard.Sound.{raw, raw-lt, contents}
use kvs_cash_machine.Shard.Valid.{Holds}
use kvs_cash_machine.ShardBuilder.Step.{cached}
use kvs_cash_machine.StorageHashTable.{StorageHashTable}
use kvs_cash_machine.Value.{Value}
use kvs_cash_machine.Kvs.OneKey
use kvs_cash_machine.Kvs.OneKey.{few_alive}

module _ (xxh3 : ByteArray → ℕ → ℕ) (f : Key → Option Value) (s : Kvs) (r : Represents xxh3 f s)
    (key : Key) (value : Value) (whole : length value.bytes ≡ value_size) where
  abbrev n : ℕ
  n = get_shard_index xxh3 key

  abbrev t : StorageHashTable
  t = r.tables n

  abbrev v : ByteArray
  v = r.files n

  abbrev c : ℕ
  c = cached s.cache_map key

  holds : Holds xxh3 n (state_at s n) t v
  holds = r.valid.holds n (shard_index-lt xxh3 key)

  coherent : Coherent c (raw t key)
  coherent = r.valid.coherent key

  abbrev a : ℕ
  a = (shard_at s n).alive_values_cnt

  abbrev added : Key → Option Value
  added = OneKey.added f key value

  abbrev pub Roomy : Kvs → Type 0
  Roomy s'' = (r' : Represents xxh3 added s'') × Became xxh3 f added s s'' r r' n 1

  module _ (p : Ptr) (s' : State) (t' : StorageHashTable) (v' : ByteArray)
      (w : Written xxh3 n (state_at s n) t v key value p s' t' v') where
    pub to_called : Called xxh3 f s r key s' t' v'
    to_called = record {
      holds = w.holds;
      framed = w.framed;
      pointers = λ q other. ap Ptr.raw (w.pointers q) ∙ rw other refl;
      reads = λ q other. w.reads q ∙ rw other refl;
    }

    new_pointer : raw t' key ≡ p.raw
    new_pointer = ap Ptr.raw (w.pointers key) ∙ rw (eq_refl key) refl

    pub new_value : contents t' v' key ≡ some value
    new_value = w.reads key ∙ rw (eq_refl key) refl

    present_Coherent : Coherent p.raw (raw t' key)
    present_Coherent = record {
      byte = omega (arith, new_pointer, raw-lt xxh3 t' v' w.holds.sound key);
      present = λ _. sym new_pointer;
      deleted = λ z. absurd (omega (arith, z, w.present));
      nonexistent = λ z. absurd (omega (arith, z, w.present));
    }

    written_dead : raw t key < 128 → s'.shard.alive_values_cnt ≡ a + 1
    written_dead dead =
        w.count ∙ rw (lt→ltb (raw t key) 128 dead) (omega (arith, few_alive xxh3 f s r key))

    pub written_alive : 128 ≤ raw t key → s'.shard.alive_values_cnt ≡ a
    written_alive high = w.count ∙ rw (le→ltb_false (raw t key) 128 high) refl

    -- The counter goes up exactly if the key had no value.
    written_counted :
        126 ≤ c
        → (m' : CacheMap) → cached m' key ≡ p.raw
        → s'.shard.alive_values_cnt + one_if (alive s.cache_map t key)
          ≡ a + one_if (alive m' t' key)
    written_counted unknown m' self =
        let now =
          alive_high m' t' key (omega (arith, self, w.present))
            (omega (arith, new_pointer, w.present)) in
        elim (dec_lt (raw t key) 128) [
          | yes dead ↦ rw (now, alive_dead s.cache_map t key dead, written_dead dead) (omega arith)
          | no high ↦
              let known : 127 ≤ c = elim (dec_lt c 127) [
                | yes low ↦ absurd (high (coherent.nonexistent (omega (arith, low, unknown))))
                | no above ↦ omega arith
              ] in
              rw
                (now, alive_high s.cache_map t key known (omega arith), written_alive (omega arith))
                refl
        ]

    written_grew : t'.used_size ≤ t.used_size + 1
    written_grew = ground (arith, w.used)

    pub written-IsTight : IsTight a t → IsTight s'.shard.alive_values_cnt t'
    written-IsTight tight = elim (dec_lt (raw t key) 128) [
      | yes dead ↦ omega (arith, written_dead dead, written_grew, tight)
      | no high ↦
          let same : t'.used_size ≡ t.used_size =
            w.used
            ∙ rw (==_false {a = raw t key} {b = 127} (λ z. omega (arith, z, high))) (omega arith) in
          omega (arith, written_alive (omega arith), same, tight)
    ]

    abbrev pub written_store : Kvs
    written_store = called xxh3 f s r key s' t' v' to_called

    written_own : (m' : CacheMap) → cached m' key ≡ p.raw → added key ≡ lookup m' t' v' key
    written_own m' self =
        OneKey.added_own f key value
        ∙ sym (lookup_high m' t' v' key (omega (arith, self, w.present)) ∙ new_value)

    -- The pointer is put into the cache map.
    abbrev pub Puts : (Kvs → Type 0) → Type 0
    Puts Done =
        (s'' : Kvs) × (put_and_push xxh3 (record { key = key; ptr = p }) written_store
          ≡ (ok tt, s''))
        × Done s''

    pub put-Roomy : HasRoom s.cache_map → 126 ≤ c → Puts Roomy
    put-Roomy room unknown =
        let (m', eq, self, grown, changed) =
          then_put xxh3 f s r key s' t' v' to_called p room (λ z. omega (arith, z, w.present))
            present_Coherent (written_counted unknown) in
        let random : ℕ → ℕ = (λ k. s.random (suc k)) in
        let own = written_own m' self in
        (
          after s n s' m' random,
          eq,
          (
            Changed-Represents xxh3 f s r key s' t' v' m' changed random added own
                (OneKey.added_other f key value),
            Changed-Became xxh3 f s r key s' t' v' m' changed random added own
                (OneKey.added_other f key value) 1 grown written_grew
                (λ _ _. inr (omega (arith, self, w.present))) (λ _. written-IsTight),
          ),
        )

    pub put-Steady :
        AreTight xxh3 f s r
        → 126 ≤ c
        → c < 128
        → Puts (Steady xxh3 added (length s.cache_map.entries))
    put-Steady tight unknown unused =
        then_push xxh3 f s r tight key unknown unused s' t' v' to_called
          (written-IsTight (tight n (shard_index-lt xxh3 key))) p (λ z. omega (arith, z, w.present))
          present_Coherent added (OneKey.added_other f key value) written_own
          (written_counted unknown)

  -- The end of the call, whatever the store is then said to be.
  abbrev pub Ends : (Kvs → Type 0) → ℕ → PtrType → Type 0
  Ends Done slot type =
      (s'' : Kvs) × (add_by_type xxh3 n key value slot (view s.cache_map.entries key) type s
        ≡ (ok tt, s''))
      × Done s''

  -- A key that the cache map does not have, or has as NONEXISTENT, is written to its shard.
  pub add_new :
      (Done : Kvs → Type 0)
      → (raw t key ≢ 127) ⊎ (t.used_size < 45)
      → ((p : Ptr) (s' : State) (t' : StorageHashTable) (v' : ByteArray)
          → (w : Written xxh3 n (state_at s n) t v key value p s' t' v') → Puts p s' t' v' w Done)
      → Ends Done 0 empty_ptr
  unfolding add_by_type
  add_new Done space puts =
      let (p, s', t', v', wrote, w) =
        write_value-Written xxh3 n (state_at s n) t v key holds value whole space in
      let (s'', eq, done) = puts p s' t' v' w in
      (s'', rw (on_shard_lem n (write_value xxh3 n key value) s _ s' wrote) eq, done)
