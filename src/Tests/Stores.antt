-- ===== src/Tests/Stores.antt =====
-- Applications of the theorems on the store.
use kvs_cash_machine.CacheMap
use kvs_cash_machine.CacheMap.{CacheMap}
use kvs_cash_machine.Constants.{cache_map_size}
use kvs_cash_machine.Entry
use kvs_cash_machine.Common.{
  length, length-replicate, Option, [], ◌∷◌, ℕ, ◌+◌, ◌*◌, ◌-◌, ◌<◌, ◌≢◌, ◌≤◌, ◌≡◌, ◌∙◌, ap, refl,
  inl, inr, none, arith,
}
use kvs_cash_machine.Disk.{Disk}
use kvs_cash_machine.Key
use kvs_cash_machine.Key.{Key}
use kvs_cash_machine.Kvs
use kvs_cash_machine.Kvs.{Kvs, shard_at}
use kvs_cash_machine.Kvs.Live.{lives_in}
use kvs_cash_machine.Kvs.Counter.{alive_number-le}
use kvs_cash_machine.Kvs.Due.{covered-NoneForgotten}
use kvs_cash_machine.Kvs.Became.{Became, Steady, AreTight, IsCovered}
use kvs_cash_machine.Kvs.Room.{HasRoom}
use kvs_cash_machine.Shard
use kvs_cash_machine.Shard.{get_shard_index}
use kvs_cash_machine.Kvs.Valid.{Represents}
use kvs_cash_machine.Outcome.{ok}
use kvs_cash_machine.Shard.Sound.{raw}
use kvs_cash_machine.ShardBuilder.Create.{start, start-raw}
use kvs_cash_machine.ShardBuilder.Step.{cached}
use kvs_cash_machine.StorageHashTable
use kvs_cash_machine.StorageHashTable.{StorageHashTable, get_entries}
use kvs_cash_machine.Tests.Shards.{blank, value, value-whole}
use kvs_cash_machine.Tests.{key, sum_hash}
use kvs_cash_machine.Value.{Value}

new-Represents_example :
    (s : Kvs) × (d' : Disk) × (Kvs.new (λ n. n) blank ≡ (ok s, d'))
    × (r : Represents sum_hash (λ k. none) s) × ((i : ℕ) → r.tables i ≡ start)
    × (s.cache_map ≡ CacheMap.with_size cache_map_size)
new-Represents_example = Kvs.New.new-Represents sum_hash (λ n. n) blank (λ j. refl)

abbrev store : Kvs
store = new-Represents_example.0

abbrev opened : Represents sum_hash (λ k. none) store
opened = new-Represents_example.3

store-used : (store.cache_map.used_size ≡ 0) × (length store.cache_map.entries ≡ 5000)
unfolding CacheMap.with_size
store-used = (
  ap CacheMap.used_size new-Represents_example.5,
  ap (λ m. length m.entries) new-Represents_example.5 ∙ length-replicate 5000 Entry.blank,
)

store-HasRoom : HasRoom store.cache_map
store-HasRoom = omega (arith, store-used)

tables_new : (i : ℕ) → opened.tables i ≡ start
tables_new = new-Represents_example.4

abbrev with_value : Key → Option Value
with_value = Kvs.OneKey.added (λ k. none) (key 5) value

add-Represents_example :
    (s' : Kvs) × (Kvs.add sum_hash (key 5) value store ≡ (ok tt, s'))
    × (r' : Represents sum_hash with_value s') × Became sum_hash
        (λ k. none)
        with_value
        store
        s'
        opened
        r'
        (get_shard_index sum_hash (key 5))
        1
unfolding StorageHashTable.with_size
add-Represents_example =
    Kvs.Add.add-Represents sum_hash (λ k. none) store opened (key 5) value value-whole store-HasRoom
      (inr (rw (tables_new _) (omega arith)))

abbrev filled : Kvs
filled = add-Represents_example.0

filled-HasRoom : HasRoom filled.cache_map
filled-HasRoom =
    omega (arith, store-used, add-Represents_example.3.used, add-Represents_example.3.size)

get-Represents_example :
    (s' : Kvs) × (Kvs.get sum_hash (key 5) filled ≡ (ok (with_value (key 5)), s'))
    × (r' : Represents sum_hash with_value s') × Became sum_hash with_value with_value filled s'
        add-Represents_example.2 r'
        (get_shard_index sum_hash (key 5))
        0
get-Represents_example =
    Kvs.Get.get-Represents sum_hash with_value filled add-Represents_example.2 (key 5)
      filled-HasRoom

no_entry : (i : ℕ) (k : Key) → raw (opened.tables i) k ≡ 127
no_entry i k = ap (λ t. raw t k) (tables_new i) ∙ start-raw sum_hash k

opened-IsCovered : IsCovered sum_hash (λ k. none) store opened
opened-IsCovered k ne = absurd (ne (no_entry _ k))

filled-IsCovered : IsCovered sum_hash with_value filled add-Represents_example.2
filled-IsCovered = add-Represents_example.3.covered opened-IsCovered

-- The counter of the shard of `key 5`, whose only key it is.
filled_alive : (shard_at filled 5).alive_values_cnt + 0 ≡ (shard_at store 5).alive_values_cnt + 1
unfolding Key.eq Key.load Key.hash_key Key.store Shard.get_shard_index
filled_alive =
    Kvs.Live.counter_change sum_hash (λ k. none) with_value store filled opened
      add-Represents_example.2 (key 5) (Kvs.OneKey.added_other (λ k. none) (key 5) value) 5
      (omega arith)

store_alive : (shard_at store 5).alive_values_cnt ≡ 0
unfolding StorageHashTable.with_size
store_alive = omega (
  arith,
  opened.valid.counts 5 (omega arith),
  alive_number-le sum_hash (opened.tables 5) (opened.files 5)
      (opened.valid.holds 5 (omega arith)).sound store.cache_map,
  ap StorageHashTable.used_size (tables_new 5),
)

-- When the value is removed, the shard has one dead value and no other, so a rebuild is due.
rebuild_due :
    2 * ((shard_at filled 5).alive_values_cnt - 1) < (add-Represents_example.2.tables 5).used_size
rebuild_due = omega (
  arith,
  filled_alive,
  store_alive,
  add-Represents_example.2.valid.counts 5 (omega arith),
  alive_number-le sum_hash (add-Represents_example.2.tables 5) (add-Represents_example.2.files 5)
      (add-Represents_example.2.valid.holds 5 (omega arith)).sound filled.cache_map,
)

abbrev without_value : Key → Option Value
without_value = Kvs.OneKey.without with_value (key 5)

remove-Represents_example :
    (s' : Kvs) × (Kvs.remove sum_hash (key 5) filled ≡ (ok tt, s'))
    × (r' : Represents sum_hash without_value s') × Became sum_hash with_value without_value filled
        s' add-Represents_example.2 r'
        (get_shard_index sum_hash (key 5))
        0
remove-Represents_example =
    Kvs.Remove.remove-Represents sum_hash with_value filled add-Represents_example.2 (key 5)
      filled-HasRoom
      (covered-NoneForgotten sum_hash with_value filled add-Represents_example.2 filled-IsCovered
        (get_shard_index sum_hash (key 5)) (Kvs.Valid.shard_index-lt sum_hash (key 5)))

-- Another key of the shard of `key 5`.
abbrev neighbor : Key
neighbor = record { bytes = Key.load 16 (5 ∷ 1 ∷ []) }

abbrev shard : ℕ
shard = get_shard_index sum_hash neighbor

abbrev two_values : Key → Option Value
two_values = Kvs.OneKey.added with_value neighbor value

filled_used : (add-Represents_example.2.tables shard).used_size ≤ 1
unfolding Key.load Key.hash_key Key.store Shard.get_shard_index StorageHashTable.with_size
filled_used = omega (
  arith,
  add-Represents_example.3.tables shard (Kvs.Valid.shard_index-lt sum_hash neighbor),
  ap StorageHashTable.used_size (tables_new shard),
)

two_added :
    (s' : Kvs) × (Kvs.add sum_hash neighbor value filled ≡ (ok tt, s'))
    × (r' : Represents sum_hash two_values s') × Became sum_hash with_value two_values filled s'
        add-Represents_example.2 r' shard 1
two_added =
    Kvs.Add.add-Represents sum_hash with_value filled add-Represents_example.2 neighbor value
      value-whole filled-HasRoom (inr (omega (arith, filled_used)))

abbrev both : Kvs
both = two_added.0

first_alive :
    (shard_at filled shard).alive_values_cnt + 0 ≡ (shard_at store shard).alive_values_cnt + 1
unfolding Key.eq Key.load Key.hash_key Key.store Shard.get_shard_index
first_alive = filled_alive

second_alive :
    (shard_at both shard).alive_values_cnt + 0 ≡ (shard_at filled shard).alive_values_cnt + 1
unfolding Key.eq Key.load Key.hash_key Key.store Shard.get_shard_index
second_alive =
    Kvs.Live.counter_change sum_hash with_value two_values filled both add-Represents_example.2
      two_added.2 neighbor (Kvs.OneKey.added_other with_value neighbor value) shard
      (Kvs.Valid.shard_index-lt sum_hash neighbor)

both_used : (two_added.2.tables shard).used_size ≤ 2
unfolding Key.load Key.hash_key Key.store Shard.get_shard_index
both_used =
    omega
      (arith, two_added.3.tables shard (Kvs.Valid.shard_index-lt sum_hash neighbor), filled_used)

both_tight : AreTight sum_hash two_values both two_added.2
unfolding StorageHashTable.with_size
both_tight = two_added.3.tight filled-IsCovered (
    add-Represents_example.3.tight opened-IsCovered
      (λ j lt. omega (arith, ap StorageHashTable.used_size (tables_new j))))

both_stored : 128 ≤ raw (two_added.2.tables shard) neighbor
unfolding Key.eq Key.load Key.hash_key Key.store Shard.get_shard_index
both_stored =
    (Kvs.Live.counter-lives_in sum_hash two_values both two_added.2 shard
        (Kvs.Valid.shard_index-lt sum_hash neighbor)).1
      neighbor refl

both_cached : cached both.cache_map neighbor ≢ 127
both_cached z =
    elim (two_added.3.covered filled-IsCovered neighbor (λ e. omega (arith, e, both_stored))) [
      | inl low ↦ omega (arith, low, z)
      | inr high ↦ omega (arith, high, z)
    ]

remove-Steady_example :
    (s' : Kvs) × (Kvs.remove sum_hash neighbor both ≡ (ok tt, s'))
    × Steady sum_hash (Kvs.OneKey.without two_values neighbor) (length both.cache_map.entries) s'
remove-Steady_example =
    Kvs.Remove.remove-Steady sum_hash two_values both two_added.2 neighbor both_tight both_cached
      (omega (arith, both_used, first_alive, second_alive))
