-- ===== src/Kvs/Push.antt =====
-- `pushOperation` of src/KVS.cpp, where no rebuild is due.
use kvs_cash_machine.ByteArray.{ByteArray}
use kvs_cash_machine.Common.{
  ℕ, ◌+◌, ◌*◌, ◌%◌, ◌≤◌, ◌<◌, ◌≡◌, ◌≢◌, ◌∙◌, inl, inr, ap, refl, false, le→ltb_false, length,
  set-get_or, get_or-set_self, arith,
}
use kvs_cash_machine.Constants.{shard_number}
use kvs_cash_machine.Entry.{Entry}
use kvs_cash_machine.Key
use kvs_cash_machine.Key.{Key}
use kvs_cash_machine.Key.Laws.{eq_refl}
use kvs_cash_machine.Kvs.{Kvs, shard_at, push_operation, push_by_type, rebuild_if_required}
use kvs_cash_machine.Kvs.Became.{IsTight}
use kvs_cash_machine.Kvs.After.{after}
use kvs_cash_machine.Kvs.Room.{on_shard_lem}
use kvs_cash_machine.Kvs.Stages.{pointer-cases}
use kvs_cash_machine.Kvs.Valid.{state_at, shard_index-lt}
use kvs_cash_machine.Outcome.{ok}
use kvs_cash_machine.Ptr.{Ptr}
use kvs_cash_machine.Shard
use kvs_cash_machine.Shard.{State, get_shard_index}
use kvs_cash_machine.Shard.Counter.{is_rebuild_required}
use kvs_cash_machine.Shard.Frame.{Framed, Framed-refl}
use kvs_cash_machine.Shard.Methods.{push_remove_entry}
use kvs_cash_machine.Shard.Remove.{Removed, cleared_high, push_remove_entry-Removed}
use kvs_cash_machine.Shard.Sound.{raw, contents}
use kvs_cash_machine.Shard.Valid.{Holds, is_rebuild_required_lem}
use kvs_cash_machine.StorageHashTable.{StorageHashTable}

module _ (xxh3 : ByteArray → ℕ → ℕ) where
  -- Nothing is rebuilt.
  pub not_due :
      (s : Kvs) (i : ℕ) (t : StorageHashTable) (v : ByteArray)
      → Holds xxh3 i (state_at s i) t v
      → IsTight (shard_at s i).alive_values_cnt t
      → rebuild_if_required xxh3 i s ≡ (ok tt, s)
  unfolding rebuild_if_required
  not_due s i t v h tight =
      rw
        (
          on_shard_lem i (is_rebuild_required i) s _ (state_at s i)
              (is_rebuild_required_lem xxh3 i (state_at s i) t v h),
          set-get_or s.shards i (Shard.new 0 0),
          le→ltb_false (2 * (shard_at s i).alive_values_cnt) t.used_size tight,
        )
        refl

  module _ (s : Kvs) (d : Entry) (t : StorageHashTable) (v : ByteArray) where
    abbrev i : ℕ
    i = get_shard_index xxh3 d.key

    -- The key of the displaced entry has in its shard what the cache map and the shard had before.
    pub record Pushed (s' : State) (t' : StorageHashTable) : Type 0 where
      pub holds : Holds xxh3 i s' t' v
      pub framed : Framed i s.disk s'.disk
      pub used : t'.used_size ≡ t.used_size
      pub count : s'.shard.alive_values_cnt ≡ (shard_at s i).alive_values_cnt
      pub pointers : (q : Key) → Key.eq d.key q ≡ false → raw t' q ≡ raw t q
      pub reads : (q : Key) → Key.eq d.key q ≡ false → contents t' v q ≡ contents t v q
      pub stored : raw t' d.key ≢ 127 → raw t d.key ≢ 127
      pub low : d.ptr.raw < 126 → raw t' d.key < 128
      pub high : 126 ≤ d.ptr.raw → raw t' d.key ≡ raw t d.key
      pub value : 126 ≤ d.ptr.raw → contents t' v d.key ≡ contents t v d.key

    module _ (number : length s.shards ≡ shard_number) (h : Holds xxh3 i (state_at s i) t v)
        (tight : IsTight (shard_at s i).alive_values_cnt t) where
      -- An entry that is present or NONEXISTENT is dropped.
      dropped : 126 ≤ d.ptr.raw → Pushed (state_at s i) t
      dropped high = record {
        holds = h;
        framed = Framed-refl;
        used = refl;
        count = refl;
        pointers = λ q _. refl;
        reads = λ q _. refl;
        stored = λ x. x;
        low = λ low. absurd (omega (arith, low, high));
        high = λ _. refl;
        value = λ _. refl;
      }

      unchanged : after s i (state_at s i) s.cache_map s.random ≡ s
      unchanged = ap (λ x. record s { shards = x }) (set-get_or s.shards i (Shard.new 0 0))

      -- A removal is written to the shard.
      Pushed-Removed :
          (s' : State) (t' : StorageHashTable)
          → Removed xxh3 i (state_at s i) t v d.key (shard_at s i).alive_values_cnt s' t'
          → 128 ≤ raw t d.key
          → d.ptr.raw < 126
          → Pushed s' t'
      Pushed-Removed s' t' w there low =
          let own : raw t' d.key ≡ raw t d.key % 128 =
            ap Ptr.raw (w.pointers d.key)
            ∙ rw (eq_refl d.key)
                (ap Ptr.raw (cleared_high xxh3 i (state_at s i) t v d.key h there)) in
          record {
            holds = w.holds;
            framed = w.framed;
            used = w.used;
            count = w.count ∙ rw (le→ltb_false (raw t d.key) 128 there) refl;
            pointers = λ q other. ap Ptr.raw (w.pointers q) ∙ rw other refl;
            reads = λ q other. w.reads q ∙ rw other refl;
            stored = λ _ z. omega (arith, z, there);
            low = λ _. omega (arith, own);
            high = λ z. absurd (omega (arith, z, low));
            value = λ z. absurd (omega (arith, z, low));
          }

      -- `pushOperation` succeeds, where no rebuild of the shard is due, and none is made. If the entry
      -- is a deleted one, then its shard still has the value.
      pub push_operation-Pushed :
          d.ptr.raw ≢ 127
          → d.ptr.raw < 256
          → (d.ptr.raw < 126 → raw t d.key ≡ d.ptr.raw + 128)
          → (s' : State) × (t' : StorageHashTable) × (push_operation xxh3 d s
              ≡ (ok tt, after s i s' s.cache_map s.random))
            × Pushed s' t'
      unfolding push_operation push_by_type
      push_operation-Pushed used byte removed_value = elim (pointer-cases d.ptr byte) [
        | inl (e, type) ↦ absurd (used e)
        | inr (inl (e, type)) ↦ (
          state_at s i,
          t,
          rw (type, not_due s i t v h tight, unchanged) refl,
          dropped (omega (arith, e)),
        )
        | inr (inr (inl (low, type))) ↦
            let (s', t', removed, w) =
              push_remove_entry-Removed xxh3 i (state_at s i) t v d.key h in
            let there : 128 ≤ raw t d.key = omega (arith, removed_value low) in
            let pushed = Pushed-Removed s' t' w there low in
            let inside : i < length s.shards = rw number (shard_index-lt xxh3 d.key) in
            let now : state_at (after s i s' s.cache_map s.random) i ≡ s' =
              ap (λ x. record { shard = x; disk = s'.disk })
                (get_or-set_self s.shards i s'.shard (Shard.new 0 0) inside) in
            (
              s',
              t',
              rw (type, on_shard_lem i (push_remove_entry xxh3 i d.key) s _ s' removed)
                  (not_due (after s i s' s.cache_map s.random) i t' v (rw now pushed.holds)
                    (rw (ap State.shard now) (omega (arith, pushed.used, pushed.count, tight)))),
              pushed,
            )
        | inr (inr (inr (high, type))) ↦ (
          state_at s i,
          t,
          rw (type, not_due s i t v h tight, unchanged) refl,
          dropped (omega (arith, high)),
        )
      ]
