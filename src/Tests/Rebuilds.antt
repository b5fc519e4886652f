-- ===== src/Tests/Rebuilds.antt =====
-- An application of the theorem on `rebuildShard`: of three values two were removed, and the cache
-- map knows the third.
use kvs_cash_machine.ByteArray.{ByteArray}
use kvs_cash_machine.CacheMap
use kvs_cash_machine.CacheMap.{CacheMap, with_size, put_or_displace}
use kvs_cash_machine.CacheMap.Put.{Put, is_displaced}
use kvs_cash_machine.CacheMap.Valid.{IsValid}
use kvs_cash_machine.Common.{
  ℕ, ◌+◌, ◌%◌, ◌*◌, ◌<◌, ◌≤◌, ◌≡◌, ◌≢◌, inl, inr, refl, ap, ◌∙◌, Bool, true, false, Bool-cases,
  List, Option, if◌then◌else◌, le→ltb_false, arith,
}
use kvs_cash_machine.Disk.{Disk}
use kvs_cash_machine.Entry.{Entry}
use kvs_cash_machine.Key
use kvs_cash_machine.Key.{Key}
use kvs_cash_machine.Key.Laws.{eq_iff}
use kvs_cash_machine.Outcome.{ok}
use kvs_cash_machine.Ptr
use kvs_cash_machine.Ptr.{Ptr}
use kvs_cash_machine.Shard
use kvs_cash_machine.Shard.{Shard, State, hash}
use kvs_cash_machine.Shard.Remove.{Removed}
use kvs_cash_machine.Shard.Sound.{raw}
use kvs_cash_machine.Shard.Valid.{Holds}
use kvs_cash_machine.ShardBuilder
use kvs_cash_machine.ShardBuilder.Forgotten
use kvs_cash_machine.ShardBuilder.RebuildShard
use kvs_cash_machine.ShardBuilder.RebuildShard.{Refreshed}
use kvs_cash_machine.ShardBuilder.Step.{Agrees, cached}
use kvs_cash_machine.StorageHashTable.{StorageHashTable}
use kvs_cash_machine.Tests.Shards.{shard, table, bytes, facts, apart}
use kvs_cash_machine.Tests.{key, entry, sum_hash}
use mathlib.Core.Path.{subst}

-- The shard after two removals.
module _ (n : ℕ) (s : State) (t : StorageHashTable) (h : Holds sum_hash 3 s t bytes) where
  abbrev less : State
  less = (Shard.Remove.remove_entry-Removed sum_hash 3 s t bytes (key n) h).0

  abbrev less_table : StorageHashTable
  less_table = (Shard.Remove.remove_entry-Removed sum_hash 3 s t bytes (key n) h).1

  less_facts :
      Removed sum_hash 3 s t bytes (key n) ((s.shard.alive_values_cnt + 255) % 256) less less_table
  less_facts = (Shard.Remove.remove_entry-Removed sum_hash 3 s t bytes (key n) h).3

  less-other : (k : ℕ) → n ≢ k → raw less_table (key k) ≡ raw t (key k)
  less-other k ne = ap Ptr.raw (less_facts.pointers (key k)) ∙ rw (apart n k ne) refl

  less-count :
      128 ≤ raw t (key n) → less.shard.alive_values_cnt ≡ (s.shard.alive_values_cnt + 255) % 256
  less-count high = less_facts.count ∙ rw (le→ltb_false (raw t (key n)) 128 high) refl

abbrev second_holds :
    Holds sum_hash 3 (less 2 shard table facts.holds) (less_table 2 shard table facts.holds) bytes
second_holds = (less_facts 2 shard table facts.holds).holds

abbrev state : State
state = less 3 (less 2 shard table facts.holds) (less_table 2 shard table facts.holds) second_holds

abbrev state_table : StorageHashTable
state_table =
    less_table 3 (less 2 shard table facts.holds) (less_table 2 shard table facts.holds)
      second_holds

abbrev third_facts :
    Removed sum_hash 3
      (less 2 shard table facts.holds)
      (less_table 2 shard table facts.holds)
      bytes
      (key 3)
      (((less 2 shard table facts.holds).shard.alive_values_cnt + 255) % 256)
      state
      state_table
third_facts =
    less_facts 3 (less 2 shard table facts.holds) (less_table 2 shard table facts.holds)
      second_holds

kept_there : 128 ≤ raw state_table (key 1)
kept_there =
    rw
      (
        less-other 3 (less 2 shard table facts.holds) (less_table 2 shard table facts.holds)
            second_holds 1 (λ e. omega arith),
        less-other 2 shard table facts.holds 1 (λ e. omega arith),
      )
      (facts.stored 1 (omega arith) (omega arith))

due : 2 * state.shard.alive_values_cnt < state_table.used_size
due =
    let two = less-count 2 shard table facts.holds (facts.stored 2 (omega arith) (omega arith)) in
    let third : 128 ≤ raw (less_table 2 shard table facts.holds) (key 3) =
      rw (less-other 2 shard table facts.holds 3 (λ e. omega arith))
        (facts.stored 3 (omega arith) (omega arith)) in
    let three =
      less-count 3 (less 2 shard table facts.holds) (less_table 2 shard table facts.holds)
        second_holds third in
    rw
      (
        third_facts.used,
        (less_facts 2 shard table facts.holds).used,
        facts.used,
        three,
        two,
        facts.count,
      )
      (omega arith)

-- A cache map that has the key of the value that is left.
stored :
    (displaced : Option Entry) × (m : CacheMap) × (put_or_displace
        (hash sum_hash)
        (with_size 9)
        4
        (entry 1 0)
      ≡ ok (displaced, m))
    × Put (hash sum_hash) (with_size 9) (entry 1 0) displaced m
stored =
    CacheMap.Put.put_or_displace-Put (hash sum_hash) (with_size 9)
      (CacheMap.Valid.map_with_size-IsValid (hash sum_hash) 9 (omega arith)).0 (entry 1 0) refl 4

abbrev map : CacheMap
map = stored.1

either : (b : Bool) → (if b then Ptr.empty else Ptr.empty).raw ≡ 127
either true = refl
either false = refl

map-Agrees : (k : Key) → raw state_table k ≢ 127 → Agrees map state_table k
map-Agrees k ne = elim (Bool-cases (Key.eq (key 1) k)) [
  | inl same ↦
      let e : cached map k ≡ 128 = ap Ptr.raw (stored.3.reads k) ∙ rw same refl in
      record {
        byte = rw e (omega arith);
        known = λ z. omega (arith, e, z);
        present = λ _. subst (λ q. 128 ≤ raw state_table q) ((eq_iff (key 1) k).0 same) kept_there;
      }
  | inr other ↦
      let e : cached map k ≡ 127 =
        ap Ptr.raw (stored.3.reads k)
        ∙ rw (other, (CacheMap.Valid.map_with_size-IsValid (hash sum_hash) 9 (omega arith)).1 k)
            (either (is_displaced stored.0 k)) in
      record {
        byte = rw e (omega arith);
        known = λ z. omega (arith, e, z);
        present = λ z. absurd (omega (arith, e, z));
      }
]

rebuild_shard-Refreshed_example :
    (new : Shard) × (updated : List Entry) × (d : Disk) × (t' : StorageHashTable) × (v' : ByteArray)
    × (ShardBuilder.rebuild_shard sum_hash 3 map 11 12 state
        ≡ (ok (new, updated), record { shard = state.shard; disk = d }))
    × Refreshed sum_hash 3 map stored.3.valid state state_table bytes new updated d t' v'
rebuild_shard-Refreshed_example =
    RebuildShard.rebuild_shard-Refreshed sum_hash 3 map stored.3.valid state state_table bytes
      third_facts.holds map-Agrees 11 12 due

-- A cache map that has a removed key as NONEXISTENT.
abbrev forgotten : Entry
forgotten = record { key = key 2; ptr = record { raw = 126 } }

stored_forgotten :
    (displaced : Option Entry) × (m : CacheMap) × (put_or_displace
        (hash sum_hash)
        (with_size 9)
        4
        forgotten
      ≡ ok (displaced, m))
    × Put (hash sum_hash) (with_size 9) forgotten displaced m
stored_forgotten =
    CacheMap.Put.put_or_displace-Put (hash sum_hash) (with_size 9)
      (CacheMap.Valid.map_with_size-IsValid (hash sum_hash) 9 (omega arith)).0 forgotten refl 4

abbrev forgotten_map : CacheMap
forgotten_map = stored_forgotten.1
