-- ===== src/Kvs/Became.antt =====
-- What the methods of src/KVS.cpp keep of a store besides its values, where the cache map has room.
use kvs_cash_machine.ByteArray.{ByteArray}
use kvs_cash_machine.CacheMap.{CacheMap}
use kvs_cash_machine.Common.{
  ℕ, ◌+◌, ◌*◌, ◌==◌, ◌≤◌, ◌<◌, ◌≡◌, ◌≢◌, ◌⊎◌, sym, refl, false, Option, if◌then◌else◌, length,
  get_or-set_self, get_or-set_ne, ==_true, ==_false, arith,
}
use mathlib.Core.Path.{subst}
use native.Mathlib.Decide.{ℕ_discrete}
use kvs_cash_machine.Constants.{shard_number}
use kvs_cash_machine.Key
use kvs_cash_machine.Key.{Key}
use kvs_cash_machine.Key.Laws.{by_key}
use kvs_cash_machine.Kvs.{Kvs, shard_at}
use kvs_cash_machine.Kvs.After.{at, after}
use kvs_cash_machine.Kvs.Change.{Changed, Changed-Represents}
use kvs_cash_machine.Kvs.Room.{Grown, Grown-refl}
use kvs_cash_machine.Kvs.Valid.{Represents, shard_index-lt, lookup}
use kvs_cash_machine.Shard
use kvs_cash_machine.Shard.{Shard, State, get_shard_index}
use kvs_cash_machine.Shard.Sound.{raw}
use kvs_cash_machine.ShardBuilder.Step.{cached}
use kvs_cash_machine.StorageHashTable.{StorageHashTable}
use kvs_cash_machine.Value.{Value}

-- If the table has the key, then the cache map has it as present or deleted.
abbrev pub Covers : CacheMap → StorageHashTable → Key → Type 0
Covers m t k = raw t k ≢ 127 → (cached m k < 126) ⊎ (128 ≤ cached m k)

-- The values file has at most twice as many values as the counter says are alive.
abbrev pub IsTight : ℕ → StorageHashTable → Type 0
IsTight alive t = t.used_size ≤ 2 * alive

module _ (xxh3 : ByteArray → ℕ → ℕ) where
  -- Nothing was displaced yet: the cache map has every key of the tables.
  abbrev pub IsCovered : (f : Key → Option Value) (s : Kvs) → Represents xxh3 f s → Type 0
  IsCovered f s r = (k : Key) → Covers s.cache_map (r.tables (get_shard_index xxh3 k)) k

  -- No rebuild is due.
  abbrev pub AreTight : (f : Key → Option Value) (s : Kvs) → Represents xxh3 f s → Type 0
  AreTight f s r = (j : ℕ) → j < shard_number → IsTight (shard_at s j).alive_values_cnt (r.tables j)

  module _ (f f' : Key → Option Value) (s s' : Kvs) (r : Represents xxh3 f s)
      (r' : Represents xxh3 f' s') where
    -- The cache map and the tables grow by one entry at most, and the table only in shard `i` and by
    -- `n`.
    pub record Became (i n : ℕ) : Type 0 where
      pub grown : Grown s.cache_map s'.cache_map
      pub open grown use *
      pub tables :
          (j : ℕ)
          → j < shard_number
          → (r'.tables j).used_size ≤ (r.tables j).used_size + (if i == j then n else 0)
      pub covered : IsCovered f s r → IsCovered f' s' r'
      pub tight : IsCovered f s r → AreTight f s r → AreTight f' s' r'

    -- After shard `i` was rebuilt if that was due: it is not due any more, and the tables are no
    -- larger.
    pub record Settled (i : ℕ) : Type 0 where
      pub grown : Grown s.cache_map s'.cache_map
      pub open grown use *
      pub fewer : (j : ℕ) → j < shard_number → (r'.tables j).used_size ≤ (r.tables j).used_size
      pub covered : IsCovered f s r → IsCovered f' s' r'
      pub here : IsTight (shard_at s' i).alive_values_cnt (r'.tables i)
      pub others :
          (j : ℕ)
          → j < shard_number
          → i ≢ j
          → IsTight (shard_at s j).alive_values_cnt (r.tables j)
          → IsTight (shard_at s' j).alive_values_cnt (r'.tables j)

  -- The store has these values, no rebuild is due, and its cache map has this size.
  pub record Steady (f : Key → Option Value) (n : ℕ) (s : Kvs) : Type 0 where
    pub represents : Represents xxh3 f s
    pub tight : AreTight f s represents
    pub size : length s.cache_map.entries ≡ n

  -- A method that changes nothing.
  pub stayed :
      (f f' : Key → Option Value) (s : Kvs) (r : Represents xxh3 f s) (r' : Represents xxh3 f' s)
      → ((j : ℕ) → r'.tables j ≡ r.tables j)
      → (i n : ℕ) → Became f f' s s r r' i n
  stayed f f' s r r' same i n = record {
    grown = Grown-refl s.cache_map;
    tables = λ j lt. rw (same j) (omega arith);
    covered = λ covered k. rw (same (get_shard_index xxh3 k)) (covered k);
    tight = λ covered tight j lt. rw (same j) (tight j lt);
  }

  module _ (f : Key → Option Value) (s : Kvs) (r : Represents xxh3 f s) (key : Key) (s' : State)
      (t' : StorageHashTable) (v' : ByteArray) (m' : CacheMap)
      (c : Changed xxh3 f s r key s' t' v' m') (random : ℕ → ℕ) (f' : Key → Option Value)
      (own : f' key ≡ lookup m' t' v' key)
      (others : (q : Key) → Key.eq key q ≡ false → f' q ≡ f q) where
    abbrev i : ℕ
    i = get_shard_index xxh3 key

    abbrev t : StorageHashTable
    t = r.tables i

    abbrev m : CacheMap
    m = s.cache_map

    abbrev r' : Represents xxh3 f' (after s i s' m' random)
    r' = Changed-Represents xxh3 f s r key s' t' v' m' c random f' own others

    pub now-IsCovered :
        (Covers m t key → Covers m' t' key)
        → IsCovered f s r
        → IsCovered f' (after s i s' m' random) r'
    now-IsCovered covers covered =
        by_key key (λ k. Covers m' (at i t' r.tables (get_shard_index xxh3 k)) k)
          (rw (==_true {a = i} refl) (covers (covered key)))
          (λ k other. elim (ℕ_discrete i (get_shard_index xxh3 k)) [
            | yes e ↦
                rw (==_true e, c.others k other, c.pointers k other)
                  (subst (λ j. Covers m (r.tables j) k) (sym e) (covered k))
            | no ne ↦ rw (==_false ne, c.others k other) (covered k)
          ])

    pub now-AreTight :
        IsTight s'.shard.alive_values_cnt t'
        → AreTight f s r
        → AreTight f' (after s i s' m' random) r'
    now-AreTight here tight j lt =
        let inside : i < length s.shards = rw r.valid.number (shard_index-lt xxh3 key) in
        elim (ℕ_discrete i j) [
          | yes e ↦
              subst
                (λ j.
                  IsTight (shard_at (after s i s' m' random) j).alive_values_cnt
                    (at i t' r.tables j))
                e
                (rw
                  (==_true {a = i} refl, get_or-set_self s.shards i s'.shard (Shard.new 0 0) inside)
                  here)
          | no ne ↦
              rw (==_false ne, get_or-set_ne s.shards s'.shard (Shard.new 0 0) ne) (tight j lt)
        ]

    now-tables :
        (n : ℕ)
        → t'.used_size ≤ t.used_size + n
        → (j : ℕ)
        → (at i t' r.tables j).used_size ≤ (r.tables j).used_size + (if i == j then n else 0)
    now-tables n grew j = elim (ℕ_discrete i j) [
      | yes e ↦
          subst
            (λ j.
              (at i t' r.tables j).used_size ≤ (r.tables j).used_size + (if i == j then n else 0))
            e (rw (==_true {a = i} refl) grew)
      | no ne ↦ rw (==_false ne) (omega arith)
    ]

    pub Changed-Became :
        (n : ℕ)
        → Grown m m'
        → t'.used_size ≤ t.used_size + n
        → (Covers m t key → Covers m' t' key)
        → (Covers m t key
            → IsTight (shard_at s i).alive_values_cnt t
            → IsTight s'.shard.alive_values_cnt t')
        → Became f f' s (after s i s' m' random) r r' i n
    Changed-Became n grown grew covers tight = record {
      grown = grown;
      tables = λ j _. now-tables n grew j;
      covered = now-IsCovered covers;
      tight = λ covered tights.
          now-AreTight (tight (covered key) (tights i (shard_index-lt xxh3 key))) tights;
    }
