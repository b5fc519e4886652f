-- ===== src/Kvs.antt =====
-- include/KVS.h and src/KVS.cpp: the store, which keeps the pointers of recently used keys in the
-- cache map and the rest in its shards.
pub mod Valid
pub mod Counter
pub mod After
pub mod Change
pub mod Room
pub mod Kept
pub mod Push
pub mod Left
pub mod Displaced
pub mod ThenPush
pub mod Became
pub mod Stages
pub mod Live
pub mod OneKey
pub mod GetUncached
pub mod Get
pub mod AddNew
pub mod AddHere
pub mod Add
pub mod New
pub mod UpdateCache
pub mod Overfull
pub mod Moved
pub mod Rebuild
pub mod Due
pub mod RemoveUncached
pub mod RemovePresent
pub mod Remove
pub mod Session
pub mod Ready
pub mod Life
use kvs_cash_machine.Action.{Action, continue, ◌>>=◌, ◌>>◌, lift, pure}
use kvs_cash_machine.ByteArray.{ByteArray}
use kvs_cash_machine.CacheMap
use kvs_cash_machine.CacheMap.{CacheMap}
use kvs_cash_machine.Common.{
  ℕ, zero, suc, ◌+◌, ◌*◌, Bool, true, false, List, [], ◌∷◌, Option, none, some, if◌then◌else◌,
  get_or, set,
}
use kvs_cash_machine.Constants.{shard_number, cache_map_size}
use kvs_cash_machine.Disk.{Disk}
use kvs_cash_machine.Entry.{Entry}
use kvs_cash_machine.Key.{Key}
use kvs_cash_machine.Outcome
use kvs_cash_machine.Outcome.{Result, ok, err, logic_error, assertion_failed}
use kvs_cash_machine.Probe.{slot}
use kvs_cash_machine.Ptr
use kvs_cash_machine.Ptr.{Ptr, PtrType, present, deleted, empty_ptr, nonexistent}
use kvs_cash_machine.Shard
use kvs_cash_machine.Shard.{Shard, State, on_disk, hash, get_shard_index}
use kvs_cash_machine.Shard.Counter.{
  is_rebuild_required, increment_alive_values_cnt, decrement_alive_values_cnt,
}
use kvs_cash_machine.Shard.Directly.{read_value_directly, write_value_directly}
use kvs_cash_machine.Shard.Methods.{read_value, write_value, remove_entry, push_remove_entry}
use kvs_cash_machine.ShardBuilder
use kvs_cash_machine.Value.{Value}

-- `class KVS`, with the disk and the random numbers that are still to be drawn.
pub record Kvs : Type 0 where
  pub shards : List Shard
  pub cache_map : CacheMap
  pub disk : Disk
  pub random : ℕ → ℕ

abbrev is_none : Option Entry → Bool
is_none none = true
is_none (some e) = false

-- The next random number.
unfoldable pub draw : Action Kvs ℕ
draw s = (ok (s.random 0), record s { random = λ n. s.random (suc n) })

-- `shards[i]`. Every index comes from `getShardIndex` and is in range.
abbrev pub shard_at : Kvs → ℕ → Shard
shard_at s i = get_or s.shards i (Shard.new 0 0)

-- A method of `shards[i]`, or a computation on the disk.
abbrev pub on_shard : {A : Type 0} → ℕ → (State → Result A × State) → Kvs → Result A × Kvs
on_shard i m s =
    let (r, t) = m (record { shard = shard_at s i; disk = s.disk }) in
    (r, record s { shards = set s.shards i t.shard; disk = t.disk })

-- `ptr.setValuePresent(b)` through the reference `ptr` into the cache map
unfoldable pub set_in_cache : ℕ → Ptr → Bool → Action Kvs (Unit {0})
set_in_cache i ptr b = do
  ptr' ← lift (Ptr.set_value_present ptr b)
  (λ s. (ok tt, record s { cache_map = CacheMap.assign s.cache_map i ptr' }))

module _ (xxh3 : ByteArray → ℕ → ℕ) where
  -- `cacheMap.get(key)`: the slot that the reference refers to, and the pointer there
  unfoldable pub get_in_cache : Key → Action Kvs (ℕ × Ptr)
  get_in_cache key s =
      (do
        i ← lift (CacheMap.locate (hash xxh3) s.cache_map key)
        pure (i, (slot s.cache_map.entries i).ptr))
        s

  -- `cacheMap.putOrDisplace(entry)`
  unfoldable pub put_or_displace : Entry → Action Kvs (Option Entry)
  unfolding draw
  put_or_displace e = do
    random ← draw
    (λ s.
        continue (CacheMap.put_or_displace (hash xxh3) s.cache_map random e, s)
          (λ r t. (ok r.0, record t { cache_map = r.1 })))

  -- The loop of `KVS::rebuildShard`.
  unfoldable pub update_cache : List Entry → Action Kvs (Unit {0})
  unfolding put_or_displace
  update_cache [] = pure tt
  update_cache (e ∷ es) = do
    displaced ← put_or_displace e
    lift (Outcome.assert (is_none displaced))
    update_cache es

  -- `KVS::rebuildShard`
  unfoldable pub rebuild_shard : ℕ → Action Kvs (Unit {0})
  unfolding draw update_cache
  rebuild_shard i = do
    seed₁ ← draw
    seed₂ ← draw
    (new_shard, new_entries) ←
        (λ s. on_shard i (ShardBuilder.rebuild_shard xxh3 i s.cache_map seed₁ seed₂) s)
    (λ s. (ok tt, record s { shards = set s.shards i new_shard }))
    update_cache new_entries

  -- The `switch` of `pushOperation`.
  unfoldable pub push_by_type : ℕ → Key → PtrType → Action Kvs (Unit {0})
  push_by_type i key deleted = do _ ← on_shard i (push_remove_entry xxh3 i key); pure tt
  push_by_type i key present = pure tt
  push_by_type i key nonexistent = pure tt
  push_by_type i key empty_ptr = lift (err assertion_failed)

  -- `if (shards[shardIndex].isRebuildRequired(shardIndex)) rebuildShard(shardIndex);`
  unfoldable pub rebuild_if_required : ℕ → Action Kvs (Unit {0})
  unfolding rebuild_shard
  rebuild_if_required i = do
    required ← on_shard i (is_rebuild_required i)
    if required then rebuild_shard i else pure tt

  -- `KVS::pushOperation`
  unfoldable pub push_operation : Entry → Action Kvs (Unit {0})
  unfolding push_by_type rebuild_if_required
  push_operation e = do
    push_by_type (get_shard_index xxh3 e.key) e.key (Ptr.get_type e.ptr)
    rebuild_if_required (get_shard_index xxh3 e.key)

  -- `putOrDisplace`, and `pushOperation` on what it displaces
  unfoldable pub put_and_push : Entry → Action Kvs (Unit {0})
  unfolding put_or_displace push_operation
  put_and_push e = do
    displaced ← put_or_displace e
    elim displaced [ none ↦ pure tt | some d ↦ push_operation d ]

  -- The `switch` of `add`.
  unfoldable pub add_by_type : ℕ → Key → Value → ℕ → Ptr → PtrType → Action Kvs (Unit {0})
  unfolding put_and_push set_in_cache
  add_by_type i key value r ptr present = on_shard i (on_disk (write_value_directly i ptr value))
  add_by_type i key value r ptr deleted = do
    on_shard i (on_disk (write_value_directly i ptr value))
    set_in_cache r ptr true
    on_shard i increment_alive_values_cnt
  add_by_type i key value r ptr nonexistent = do
    entry ← on_shard i (write_value xxh3 i key value)
    put_and_push entry
  add_by_type i key value r ptr empty_ptr = do
    entry ← on_shard i (write_value xxh3 i key value)
    put_and_push entry

  -- `KVS::add`
  unfoldable pub add : Key → Value → Action Kvs (Unit {0})
  unfolding get_in_cache add_by_type
  add key value = do
    (r, ptr) ← get_in_cache key
    add_by_type (get_shard_index xxh3 key) key value r ptr (Ptr.get_type ptr)

  -- The inner `switch` of `get`.
  unfoldable pub cache_by_type : Entry → PtrType → Action Kvs (Unit {0})
  unfolding put_and_push
  cache_by_type e present = put_and_push e
  cache_by_type e empty_ptr = do
    ptr ← lift (Ptr.of_type nonexistent)
    put_and_push (record { key = e.key; ptr = ptr })
  cache_by_type e deleted = do
    ptr ← lift (Ptr.of_type nonexistent)
    put_and_push (record { key = e.key; ptr = ptr })
  cache_by_type e nonexistent = lift (err assertion_failed)

  -- The outer `switch` of `get`.
  unfoldable pub get_by_type : ℕ → Key → Ptr → PtrType → Action Kvs (Option Value)
  unfolding cache_by_type
  get_by_type i key ptr present = do
    value ← on_shard i (on_disk (read_value_directly i ptr))
    pure (some value)
  get_by_type i key ptr nonexistent = pure none
  get_by_type i key ptr deleted = pure none
  get_by_type i key ptr empty_ptr = do
    (new_entry, value) ← on_shard i (read_value xxh3 i key)
    cache_by_type new_entry (Ptr.get_type new_entry.ptr)
    pure value

  -- `KVS::get`
  unfoldable pub get : Key → Action Kvs (Option Value)
  unfolding get_in_cache get_by_type
  get key = do
    (r, ptr) ← get_in_cache key
    get_by_type (get_shard_index xxh3 key) key ptr (Ptr.get_type ptr)

  -- The inner `switch` of `remove`.
  unfoldable pub removed_by_type : Entry → PtrType → Action Kvs (Unit {0})
  unfolding put_and_push
  removed_by_type e present = lift (err assertion_failed)
  removed_by_type e nonexistent = lift (err assertion_failed)
  removed_by_type e deleted = do
    ptr ← lift (Ptr.of_type nonexistent)
    put_and_push (record { key = e.key; ptr = ptr })
  removed_by_type e empty_ptr = do
    ptr ← lift (Ptr.of_type nonexistent)
    put_and_push (record { key = e.key; ptr = ptr })

  -- The outer `switch` of `remove`.
  unfoldable pub remove_by_type : ℕ → Key → ℕ → Ptr → PtrType → Action Kvs (Unit {0})
  unfolding set_in_cache rebuild_if_required removed_by_type
  remove_by_type i key r ptr present = do
    set_in_cache r ptr false
    on_shard i decrement_alive_values_cnt
    rebuild_if_required i
  remove_by_type i key r ptr nonexistent = pure tt
  remove_by_type i key r ptr deleted = pure tt
  remove_by_type i key r ptr empty_ptr = do
    new_entry ← on_shard i (remove_entry xxh3 i key)
    removed_by_type new_entry (Ptr.get_type new_entry.ptr)

  -- `KVS::remove`
  unfoldable pub remove : Key → Action Kvs (Unit {0})
  unfolding get_in_cache remove_by_type
  remove key = do
    (r, ptr) ← get_in_cache key
    remove_by_type (get_shard_index xxh3 key) key r ptr (Ptr.get_type ptr)

-- The loop of the constructor: the shards from `i` on, as many as the first argument says.
unfoldable pub create_shards : ℕ → ℕ → (ℕ → ℕ) → Action Disk (List Shard)
create_shards zero i random = pure []
create_shards (suc n) i random = do
  shard ← ShardBuilder.create_shard i (random 0) (random 1)
  rest ← create_shards n (i + 1) (λ k. random (k + 2))
  pure (shard ∷ rest)

-- `KVS::KVS`, on a disk
unfoldable pub new : (ℕ → ℕ) → Action Disk Kvs
unfolding create_shards
new random d = continue (create_shards shard_number 0 random d) (λ shards d'. (
  ok (record {
    shards = shards;
    cache_map = CacheMap.with_size cache_map_size;
    disk = d';
    random = λ k. random (k + 2 * shard_number);
  }),
  d',
))

-- `KVS::clear`
unfoldable pub clear : Action Kvs (Unit {0})
clear = lift (err logic_error)
