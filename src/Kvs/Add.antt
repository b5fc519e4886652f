-- ===== src/Kvs/Add.antt =====
-- `add` of src/KVS.cpp, where the shard has room.
use kvs_cash_machine.ByteArray.{ByteArray}
use kvs_cash_machine.Common.{ℕ, ◌≤◌, ◌<◌, ◌≡◌, ◌≢◌, ◌⊎◌, inl, inr, Option, length, arith}
use kvs_cash_machine.Constants.{value_size}
use kvs_cash_machine.Key.{Key}
use kvs_cash_machine.Kvs.{Kvs, shard_at, add, add_by_type}
use kvs_cash_machine.Kvs.Became.{AreTight, Became, Steady}
use kvs_cash_machine.Kvs.Room.{HasRoom, get_in_cache_lem}
use kvs_cash_machine.Kvs.Stages.{pointer-cases}
use kvs_cash_machine.Kvs.Valid.{state_at, Coherent, Represents, shard_index-lt}
use kvs_cash_machine.Outcome.{ok}
use kvs_cash_machine.Probe.Table.{view}
use kvs_cash_machine.Ptr.{PtrType, present, deleted, empty_ptr}
use kvs_cash_machine.Shard.{get_shard_index}
use kvs_cash_machine.Shard.Sound.{raw}
use kvs_cash_machine.Shard.Valid.{Holds}
use kvs_cash_machine.ShardBuilder.Step.{cached}
use kvs_cash_machine.StorageHashTable.{StorageHashTable}
use kvs_cash_machine.Value.{Value}
use kvs_cash_machine.Kvs.OneKey
use kvs_cash_machine.Kvs.OneKey.{few_alive}
use kvs_cash_machine.Kvs.AddNew
use kvs_cash_machine.Kvs.AddNew.{put-Roomy, put-Steady, add_new}
use kvs_cash_machine.Kvs.AddHere
use kvs_cash_machine.Kvs.AddHere.{add_present, add_deleted}

module _ (xxh3 : ByteArray → ℕ → ℕ) (f : Key → Option Value) (s : Kvs) (r : Represents xxh3 f s)
    (key : Key) (value : Value) (whole : length value.bytes ≡ value_size) where
  abbrev n : ℕ
  n = get_shard_index xxh3 key

  abbrev t : StorageHashTable
  t = r.tables n

  abbrev v : ByteArray
  v = r.files n

  abbrev c : ℕ
  c = cached s.cache_map key

  holds : Holds xxh3 n (state_at s n) t v
  holds = r.valid.holds n (shard_index-lt xxh3 key)

  coherent : Coherent c (raw t key)
  coherent = r.valid.coherent key

  abbrev a : ℕ
  a = (shard_at s n).alive_values_cnt

  abbrev added : Key → Option Value
  added = OneKey.added f key value

  abbrev Roomy : Kvs → Type 0
  Roomy = AddNew.Roomy xxh3 f s r key value whole

  abbrev Ends : (Kvs → Type 0) → ℕ → PtrType → Type 0
  Ends = AddNew.Ends xxh3 f s r key value whole

  abbrev Both : Kvs → Type 0
  Both = AddHere.Both xxh3 f s r key value whole

  module _ (Done : Kvs → Type 0) (from : (s'' : Kvs) → Both s'' → Done s'')
      (new : 126 ≤ c → c < 128 → Ends Done 0 empty_ptr) where
    ends : (slot : ℕ) (type : PtrType) → Ends Both slot type → Ends Done slot type
    ends slot type (s'', eq, both) = (s'', eq, from s'' both)

    add_with : (s' : Kvs) × (add xxh3 key value s ≡ (ok tt, s')) × Done s'
    unfolding add add_by_type
    add_with =
        let (slot, located, found) = get_in_cache_lem xxh3 s r.valid.cache key in
        elim (pointer-cases (view s.cache_map.entries key) coherent.byte) [
          | inl (e, type) ↦
              let (s', eq, done) = new (omega (arith, e)) (omega (arith, e)) in
              (s', rw (found, type) eq, done)
          | inr (inl (e, type)) ↦
              let (s', eq, done) = new (omega (arith, e)) (omega (arith, e)) in
              (s', rw (found, type) eq, done)
          | inr (inr (inl (low, type))) ↦
              let (s', eq, done) =
                ends slot deleted (add_deleted xxh3 f s r key value whole low slot located) in
              (s', rw (found, type) eq, done)
          | inr (inr (inr (high, type))) ↦
              let (s', eq, done) =
                ends slot present (add_present xxh3 f s r key value whole high slot) in
              (s', rw (found, type) eq, done)
        ]

  -- `add` of a value of VALUE_SIZE bytes to a valid store whose cache map has at most two thirds of its slots in use succeeds, if the
  -- key has an entry in its shard or the shard has less than 45 of them: it leaves a valid store with
  -- this value for the key and the same values as before for the others, whose cache map has the same
  -- size and at most one used slot more, and whose tables are no larger but for one entry more in the
  -- key's shard. If every key of the tables was in the cache map, that is still so, and then, if no
  -- rebuild was due, none is.
  pub add-Represents :
      HasRoom s.cache_map
      → (raw t key ≢ 127) ⊎ (t.used_size < 45)
      → (s' : Kvs) × (add xxh3 key value s ≡ (ok tt, s'))
        × (r' : Represents xxh3 added s') × Became xxh3 f added s s' r r' n 1
  add-Represents room space =
      let (s', eq, (r', became)) =
        add_with Roomy (λ _ both. both.0)
          (λ unknown _.
            add_new xxh3 f s r key value whole Roomy space
              (λ p s' t' v' w. put-Roomy xxh3 f s r key value whole p s' t' v' w room unknown)) in
      (s', eq, r', became)

  -- `add` of a value of VALUE_SIZE bytes to a valid store in which no rebuild is due in any shard succeeds, even if
  -- it displaces an entry of the cache map, if the key has an entry in its shard or the shard has less
  -- than 45 of them: it leaves a valid store with this value for the key and the same values as before
  -- for the others, in which no rebuild is due, and whose cache map has the same size.
  pub add-Steady :
      AreTight xxh3 f s r
      → (raw t key ≢ 127) ⊎ (t.used_size < 45)
      → (s' : Kvs) × (add xxh3 key value s ≡ (ok tt, s'))
        × Steady xxh3 added (length s.cache_map.entries) s'
  add-Steady tight space =
      add_with (Steady xxh3 added (length s.cache_map.entries)) (λ _ both. both.1 tight)
        (λ unknown unused.
          add_new xxh3 f s r key value whole (Steady xxh3 added (length s.cache_map.entries)) space
            (λ p s' t' v' w.
              put-Steady xxh3 f s r key value whole p s' t' v' w tight unknown unused))
