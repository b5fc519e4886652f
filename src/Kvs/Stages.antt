-- ===== src/Kvs/Stages.antt =====
-- The last steps of `get`, `add` and `remove` of src/KVS.cpp: an entry is put into the cache map, or
-- a shard is called and the cache map stays.
use kvs_cash_machine.ByteArray.{ByteArray}
use kvs_cash_machine.CacheMap.{CacheMap}
use kvs_cash_machine.Common.{
  ℕ, suc, ◌+◌, ◌≤◌, ◌<◌, ◌≡◌, ◌≢◌, ◌⊎◌, inl, inr, sym, ap, refl, false, Option, none, lt→ltb,
  le→ltb_false, set, arith,
}
use mathlib.Core.Path.{subst}
use native.Mathlib.Decide.{ℕ_discrete, dec_lt}
use kvs_cash_machine.Key
use kvs_cash_machine.Key.{Key}
use kvs_cash_machine.Kvs.{Kvs, put_and_push, shard_at}
use kvs_cash_machine.StorageHashTable.Number.{one_if}
use kvs_cash_machine.Kvs.After.{after}
use kvs_cash_machine.Kvs.Change.{Changed}
use kvs_cash_machine.Kvs.Room.{HasRoom, Grown, Cached-Grown, put_and_push_lem}
use kvs_cash_machine.Kvs.Valid.{state_at, Coherent, lookup, Represents, shard_index-lt, alive}
use kvs_cash_machine.Outcome.{ok}
use kvs_cash_machine.Ptr
use kvs_cash_machine.Ptr.{Ptr, PtrType, present, deleted, nonexistent, empty_ptr}
use kvs_cash_machine.Ptr.Laws.{
  get_type-empty_ptr, get_type-nonexistent, get_type-deleted, get_type-present,
}
use kvs_cash_machine.Shard.{State, get_shard_index}
use kvs_cash_machine.Shard.Frame.{Framed, Framed-refl}
use kvs_cash_machine.Shard.Sound.{raw, contents}
use kvs_cash_machine.Shard.Valid.{Holds}
use kvs_cash_machine.ShardBuilder.Step.{cached}
use kvs_cash_machine.StorageHashTable.{StorageHashTable}
use kvs_cash_machine.Value.{Value}

-- The byte of a pointer, and its type.
pub pointer-cases :
    (p : Ptr)
    → p.raw < 256
    → ((p.raw ≡ 127) × (Ptr.get_type p ≡ empty_ptr))
      ⊎ (((p.raw ≡ 126) × (Ptr.get_type p ≡ nonexistent))
          ⊎ (((p.raw < 126) × (Ptr.get_type p ≡ deleted))
              ⊎ ((128 ≤ p.raw) × (Ptr.get_type p ≡ present))))
pointer-cases p byte = elim (ℕ_discrete p.raw 127) [
  | yes e ↦ inl (e, get_type-empty_ptr p byte e)
  | no ne ↦ inr (elim (ℕ_discrete p.raw 126) [
    | yes e ↦ inl (e, get_type-nonexistent p byte e)
    | no ne' ↦ inr (elim (dec_lt p.raw 128) [
      | yes low ↦ inl (omega arith, get_type-deleted p byte (omega arith))
      | no high ↦ inr (omega arith, get_type-present p byte (omega arith))
    ])
  ])
]

module _ (m : CacheMap) (t : StorageHashTable) (v : ByteArray) (k : Key) where
  pub lookup_low : cached m k < 127 → lookup m t v k ≡ none
  unfolding lookup
  lookup_low low = rw (lt→ltb (cached m k) 127 low) refl

  pub lookup_high : 127 ≤ cached m k → lookup m t v k ≡ contents t v k
  unfolding lookup
  lookup_high high = rw (le→ltb_false (cached m k) 127 high) refl

module _ (xxh3 : ByteArray → ℕ → ℕ) (f : Key → Option Value) (s : Kvs) (r : Represents xxh3 f s)
    (key : Key) where
  abbrev pub i : ℕ
  i = get_shard_index xxh3 key

  -- The key's shard became `s'`, and other keys are as before.
  pub record Called (s' : State) (t' : StorageHashTable) (v' : ByteArray) : Type 0 where
    pub holds : Holds xxh3 i s' t' v'
    pub framed : Framed i s.disk s'.disk
    pub pointers : (q : Key) → Key.eq key q ≡ false → raw t' q ≡ raw (r.tables i) q
    pub reads :
        (q : Key) → Key.eq key q ≡ false → contents t' v' q ≡ contents (r.tables i) (r.files i) q

  -- A call that leaves the shard as it is.
  pub not_changed : Called (state_at s i) (r.tables i) (r.files i)
  not_changed = record {
    holds = r.valid.holds i (shard_index-lt xxh3 key);
    framed = Framed-refl;
    pointers = λ q _. refl;
    reads = λ q _. refl;
  }

  module _ (s' : State) (t' : StorageHashTable) (v' : ByteArray) (c : Called s' t' v') where
    -- The cache map stays.
    pub with_cache :
        Coherent (cached s.cache_map key) (raw t' key)
        → s'.shard.alive_values_cnt + one_if (alive s.cache_map (r.tables i) key)
          ≡ (shard_at s i).alive_values_cnt + one_if (alive s.cache_map t' key)
        → Changed xxh3 f s r key s' t' v' s.cache_map
    with_cache coherent counted = record {
      holds = c.holds;
      framed = c.framed;
      pointers = c.pointers;
      reads = c.reads;
      cache = r.valid.cache;
      others = λ q _. refl;
      coherent = coherent;
      counted = counted;
    }

    abbrev pub called : Kvs
    called = record s { shards = set s.shards i s'.shard; disk = s'.disk }

    -- The key's entry is put into the cache map.
    pub then_put :
        (p : Ptr)
        → HasRoom s.cache_map
        → p.raw ≢ 127
        → Coherent p.raw (raw t' key)
        → ((m' : CacheMap)
            → cached m' key ≡ p.raw
            → s'.shard.alive_values_cnt + one_if (alive s.cache_map (r.tables i) key)
              ≡ (shard_at s i).alive_values_cnt + one_if (alive m' t' key))
        → (m' : CacheMap) × (put_and_push xxh3 (record { key = key; ptr = p }) called
            ≡ (ok tt, after s i s' m' (λ n. s.random (suc n))))
          × (cached m' key ≡ p.raw)
          × Grown s.cache_map m'
          × Changed xxh3 f s r key s' t' v' m'
    then_put p room used coherent counted =
        let (m', eq, put) =
          put_and_push_lem xxh3 called r.valid.cache (record { key = key; ptr = p }) room
            (ground arith) in
        (
          m',
          eq,
          ap Ptr.raw put.self,
          Cached-Grown xxh3 called r.valid.cache put,
          record {
            holds = c.holds;
            framed = c.framed;
            pointers = c.pointers;
            reads = c.reads;
            cache = put.cache;
            others = λ q other. ap Ptr.raw (put.others q other);
            coherent = subst (λ x. Coherent x (raw t' key)) (sym (ap Ptr.raw put.self)) coherent;
            counted = counted m' (ap Ptr.raw put.self);
          },
        )
