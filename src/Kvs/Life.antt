-- ===== src/Kvs/Life.antt =====
-- The life of a store of src/KVS.cpp, from its constructor on.
use kvs_cash_machine.ByteArray.{ByteArray}
use kvs_cash_machine.CacheMap
use kvs_cash_machine.CacheMap.{CacheMap}
use kvs_cash_machine.Common.{
  ℕ, ◌+◌, ◌*◌, ◌/◌, ◌≤◌, ◌<◌, ◌≡◌, ◌∙◌, ap, true, false, List, none, some, length, length-replicate,
  arith,
}
use kvs_cash_machine.Constants.{shard_number, cache_map_size, value_size}
use kvs_cash_machine.Disk.{Disk, values}
use kvs_cash_machine.Entry
use kvs_cash_machine.Kvs
use kvs_cash_machine.Kvs.{Kvs, shard_at}
use kvs_cash_machine.Kvs.Counter.{alive_number-le}
use kvs_cash_machine.Key.{Key}
use kvs_cash_machine.Kvs.Live.{lives_in, counter-IsListOf}
use kvs_cash_machine.StorageHashTable.Keys.{IsListOf}
use kvs_cash_machine.Kvs.New.{new-Represents}
use kvs_cash_machine.Kvs.Ready.{Ready, Calm, Ready-fewer, run-Ready, run-Calm}
use kvs_cash_machine.Kvs.Session.{
  Operation, Model, run, final, answers, AreAdmitted, removes_nothing,
}
use kvs_cash_machine.Outcome.{ok}
use kvs_cash_machine.Shard
use kvs_cash_machine.Shard.{get_shard_index}
use kvs_cash_machine.ShardBuilder.Create.{start-raw}
use kvs_cash_machine.StorageHashTable
use kvs_cash_machine.StorageHashTable.{StorageHashTable}

-- The map with no values.
abbrev pub empty : Model
empty = record { values = λ k. none; live = λ i. 0 }

-- The cache map displaces nothing in so many operations: before the last of them, at most two thirds
-- of its slots are used.
abbrev pub operation_limit : ℕ
operation_limit = 2 * cache_map_size / 3 + 1

module _ (xxh3 : ByteArray → ℕ → ℕ) where
  new-Ready :
      (random : ℕ → ℕ) (d : Disk)
      → ((j : ℕ) → d.denied j ≡ false)
      → (s : Kvs) × (d' : Disk) × (Kvs.new random d ≡ (ok s, d'))
        × Ready xxh3 operation_limit empty s
  unfolding StorageHashTable.with_size CacheMap.with_size
  new-Ready random d allowed =
      let (s, d', eq, r, tables, cache) = new-Represents xxh3 random d allowed in
      let none_used : (i : ℕ) → (r.tables i).used_size ≡ 0 =
        (λ i. ap (λ (t : StorageHashTable). t.used_size) (tables i)) in
      (
        s,
        d',
        eq,
        record {
          calm = record {
            represents = r;
            tight = λ i lt. omega (arith, none_used i);
            counts = λ i lt. omega (
              arith,
              none_used i,
              r.valid.counts i lt,
              alive_number-le xxh3 (r.tables i) (r.files i) (r.valid.holds i lt).sound s.cache_map,
            );
          };
          covered = λ k there. absurd (
              there (
                ap (λ t. Shard.Sound.raw t k) (tables (get_shard_index xxh3 k))
                ∙ start-raw xxh3 k));
          room = omega (
            arith,
            ap (λ (m : CacheMap). m.used_size) cache,
            ap (λ m. length m.entries) cache ∙ length-replicate 5000 Entry.blank,
          );
        },
      )

  -- On a disk that lets it create its directories, the constructor makes a store that answers up to
  -- 3334 calls of `get`, `add` and `remove`, in any order, as a map from keys to values does, none of
  -- them with an error. Each value that is added has VALUE_SIZE bytes, and its key has a value already
  -- or less than 23 keys of its shard have one. In the end the store is valid and has the values of
  -- the map, the counter of each shard is the number of its keys with a value in the map, and no
  -- rebuild is due.
  pub run-new :
      (random : ℕ → ℕ) (d : Disk)
      → ((j : ℕ) → d.denied j ≡ false)
      → (os : List Operation) → length os ≤ operation_limit
      → AreAdmitted xxh3 os empty
      → (s : Kvs) × (d' : Disk) × (s' : Kvs) × (Kvs.new random d ≡ (ok s, d'))
        × (run xxh3 os s ≡ (ok (answers xxh3 os empty), s'))
        × Ready xxh3 0 (final xxh3 os empty) s'
  run-new random d allowed os few admitted =
      let (s, d', eq, ready) = new-Ready random d allowed in
      let (s', ran, ready') =
        run-Ready xxh3 os 0 empty s
          (Ready-fewer xxh3 operation_limit (length os + 0) empty s (omega (arith, few)) ready)
          admitted in
      (s, d', s', eq, ran, ready')

  -- The counter of a shard, and the length of its values file, by the keys with a value.
  module _ (m : Model) (s : Kvs) (calm : Calm xxh3 m s) (i : ℕ) (lt : i < shard_number) where
    counter-length :
        (ks : List Key) × (v : ByteArray) × IsListOf (lives_in xxh3 m.values i) ks
        × ((shard_at s i).alive_values_cnt ≡ length ks)
        × (s.disk.file (values i) ≡ some v)
        × (length v ≤ 2 * (length ks * value_size))
    counter-length =
        let holds = calm.represents.valid.holds i lt in
        let (ks, listed, count) = counter-IsListOf xxh3 m.values s calm.represents i lt in
        (
          ks,
          calm.represents.files i,
          listed,
          count,
          holds.values_file,
          omega (arith, holds.sound.blocks, count, calm.tight i lt),
        )

  -- On a disk that lets it create its directories, the constructor makes a store in which, after up to
  -- 3334 calls of `get`, `add` and `remove` and then any number of `get` and `add`, in any order, none
  -- of which fails, the counter of each shard is the number of its keys that have a value in the map
  -- that the calls compute, listed once each, and its values file is at most twice as long as these
  -- values. Each value that is added has VALUE_SIZE bytes, and its key has a value already or less than
  -- 23 keys of its shard have one.
  pub run-values :
      (random : ℕ → ℕ) (d : Disk)
      → ((j : ℕ) → d.denied j ≡ false)
      → (os more : List Operation) → length os ≤ operation_limit
      → AreAdmitted xxh3 os empty
      → removes_nothing more ≡ true
      → AreAdmitted xxh3 more (final xxh3 os empty)
      → (i : ℕ) → i < shard_number
      → (s : Kvs) × (d' : Disk) × (s₁ : Kvs) × (s₂ : Kvs) × (ks : List Key) × (v : ByteArray)
        × (Kvs.new random d ≡ (ok s, d'))
        × (run xxh3 os s ≡ (ok (answers xxh3 os empty), s₁))
        × (run xxh3 more s₁ ≡ (ok (answers xxh3 more (final xxh3 os empty)), s₂))
        × IsListOf (lives_in xxh3 (final xxh3 more (final xxh3 os empty)).values i) ks
        × ((shard_at s₂ i).alive_values_cnt ≡ length ks)
        × (s₂.disk.file (values i) ≡ some v)
        × (length v ≤ 2 * (length ks * value_size))
  run-values random d allowed os more few admitted keeps admitted' i lt =
      let m = final xxh3 os empty in
      let (s, d', s₁, opened, ran, ready) = run-new random d allowed os few admitted in
      let (s₂, ran', calm) = run-Calm xxh3 more m s₁ keeps ready.calm admitted' in
      let (ks, v, listed, count, holds, short) = counter-length (final xxh3 more m) s₂ calm i lt in
      (s, d', s₁, s₂, ks, v, opened, ran, ran', listed, count, holds, short)
