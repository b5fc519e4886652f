-- ===== src/Kvs/Change.antt =====
-- What changes of one shard and of one key in the cache map do to the store of src/KVS.cpp.
use kvs_cash_machine.ByteArray.{ByteArray}
use kvs_cash_machine.CacheMap
use kvs_cash_machine.CacheMap.{CacheMap}
use kvs_cash_machine.Common.{
  ℕ, ◌+◌, ◌<◌, ◌≡◌, ◌≢◌, ◌∙◌, sym, ap, refl, false, Option, length, length-set, arith, ==_true,
  ==_false,
}
use mathlib.Core.Path.{subst}
use native.Mathlib.Decide.{ℕ_discrete}
use kvs_cash_machine.Constants.{shard_number}
use kvs_cash_machine.Key
use kvs_cash_machine.Key.{Key}
use kvs_cash_machine.Key.Laws.{by_key}
use kvs_cash_machine.Kvs.{Kvs, shard_at}
use kvs_cash_machine.Kvs.Counter.{alive_number, alive_number_change, alive_number_elsewhere}
use kvs_cash_machine.StorageHashTable.Number.{one_if}
use kvs_cash_machine.Kvs.Valid.{Coherent, lookup, Valid, Represents, shard_index-lt, alive}
use kvs_cash_machine.Shard.{State, hash, get_shard_index}
use kvs_cash_machine.Shard.Frame.{Framed}
use kvs_cash_machine.Shard.Sound.{raw, contents}
use kvs_cash_machine.Shard.Valid.{Holds}
use kvs_cash_machine.ShardBuilder.Step.{cached}
use kvs_cash_machine.StorageHashTable.{StorageHashTable}
use kvs_cash_machine.Value.{Value}
use kvs_cash_machine.Kvs.After.{at, after, count-after, shards_hold}

module _ (xxh3 : ByteArray → ℕ → ℕ) where
  module _ (f : Key → Option Value) (s : Kvs) (r : Represents xxh3 f s) (key : Key) where
    abbrev i : ℕ
    i = get_shard_index xxh3 key

    -- The key's shard became `s'`, and the cache map `m'`, and other keys are as before.
    pub record Changed (s' : State) (t' : StorageHashTable) (v' : ByteArray) (m' : CacheMap)
        : Type 0 where
      pub holds : Holds xxh3 i s' t' v'
      pub framed : Framed i s.disk s'.disk
      pub pointers : (q : Key) → Key.eq key q ≡ false → raw t' q ≡ raw (r.tables i) q
      pub reads :
          (q : Key) → Key.eq key q ≡ false → contents t' v' q ≡ contents (r.tables i) (r.files i) q
      pub cache : CacheMap.Valid.IsValid (hash xxh3) m'
      pub others : (q : Key) → Key.eq key q ≡ false → cached m' q ≡ cached s.cache_map q
      pub coherent : Coherent (cached m' key) (raw t' key)
      pub counted :
          s'.shard.alive_values_cnt + one_if (alive s.cache_map (r.tables i) key)
          ≡ (shard_at s i).alive_values_cnt + one_if (alive m' t' key)

    module _ (s' : State) (t' : StorageHashTable) (v' : ByteArray) (m' : CacheMap)
        (c : Changed s' t' v' m') (random : ℕ → ℕ) where
      abbrev now : Kvs
      now = after s i s' m' random

      raw_at :
          (q : Key)
          → Key.eq key q ≡ false
          → (j : ℕ) → raw (at i t' r.tables j) q ≡ raw (r.tables j) q
      raw_at q other j = elim (ℕ_discrete i j) [
        | yes e ↦ rw (==_true e) (c.pointers q other ∙ ap (λ j. raw (r.tables j) q) e)
        | no ne ↦ rw (==_false ne) refl
      ]

      contents-at :
          (q : Key)
          → Key.eq key q ≡ false
          → (j : ℕ)
          → contents (at i t' r.tables j) (at i v' r.files j) q
            ≡ contents (r.tables j) (r.files j) q
      contents-at q other j = elim (ℕ_discrete i j) [
        | yes e ↦ rw (==_true e) (c.reads q other ∙ ap (λ j. contents (r.tables j) (r.files j) q) e)
        | no ne ↦ rw (==_false ne) refl
      ]

      own_key : (j : ℕ) → j < shard_number → raw (at i t' r.tables j) key ≢ 127 → i ≡ j
      own_key j lt there = elim (ℕ_discrete i j) [
        | yes e ↦ e
        | no ne ↦ r.valid.own j key lt (λ z. there (rw (==_false ne) z))
      ]

      -- The counters of the key's shard and of the others.
      own_count : s'.shard.alive_values_cnt ≡ alive_number m' t'
      own_count =
          let lt = shard_index-lt xxh3 key in
          let change =
            alive_number_change xxh3 (r.tables i) (r.files i) (r.valid.holds i lt).sound t' v'
              c.holds.sound s.cache_map m' key c.others c.pointers in
          omega (arith, change, c.counted, r.valid.counts i lt)

      other_count :
          (j : ℕ)
          → j < shard_number
          → i ≢ j
          → (shard_at s j).alive_values_cnt ≡ alive_number m' (r.tables j)
      other_count j lt ne =
          r.valid.counts j lt
          ∙ sym (
              alive_number_elsewhere xxh3 (r.tables j) (r.files j) (r.valid.holds j lt).sound
                s.cache_map m'
                (by_key key (λ q. raw (r.tables j) q ≢ 127 → cached m' q ≡ cached s.cache_map q)
                  (λ stored. absurd (ne (r.valid.own j key lt stored)))
                  (λ q other _. c.others q other)))

      now-counts :
          (j : ℕ)
          → j < shard_number
          → (shard_at now j).alive_values_cnt ≡ alive_number m' (at i t' r.tables j)
      now-counts j lt =
          let inside : i < length s.shards = rw r.valid.number (shard_index-lt xxh3 key) in
          count-after s i s' m' random inside j ∙ elim (ℕ_discrete i j) [
            | yes e ↦
                subst
                  (λ j.
                    at i s'.shard.alive_values_cnt (λ j. (shard_at s j).alive_values_cnt) j
                    ≡ alive_number m' (at i t' r.tables j))
                  e (rw (==_true {a = i} refl) own_count)
            | no ne ↦ rw (==_false ne) (other_count j lt ne)
          ]

      pub now-Valid : Valid xxh3 now (at i t' r.tables) (at i v' r.files)
      now-Valid = record {
        cache = c.cache;
        number = length-set s.shards i s'.shard ∙ r.valid.number;
        holds =
            shards_hold xxh3 s r.tables r.files r.valid.number r.valid.holds i
              (shard_index-lt xxh3 key) s' t' v' c.holds c.framed m' random;
        own = λ j k.
            by_key key
              (λ q.
                j < shard_number → raw (at i t' r.tables j) q ≢ 127 → get_shard_index xxh3 q ≡ j)
              (own_key j) (λ q other lt ne. r.valid.own j q lt (λ z. ne (raw_at q other j ∙ z))) k;
        coherent =
            by_key key
              (λ q. Coherent (cached m' q) (raw (at i t' r.tables (get_shard_index xxh3 q)) q))
              (rw (==_true {a = i} refl) c.coherent)
              (λ q other.
                rw (raw_at q other (get_shard_index xxh3 q), c.others q other)
                  (r.valid.coherent q));
        counts = now-counts;
      }

      module _ (f' : Key → Option Value) (own : f' key ≡ lookup m' t' v' key)
          (others : (q : Key) → Key.eq key q ≡ false → f' q ≡ f q) where
        pub now-reads :
            (q : Key)
            → f' q
              ≡ lookup m'
                  (at i t' r.tables (get_shard_index xxh3 q))
                  (at i v' r.files (get_shard_index xxh3 q))
                  q
        unfolding lookup
        now-reads =
            by_key key
              (λ q.
                f' q
                ≡ lookup m' (at i t' r.tables (get_shard_index xxh3 q))
                    (at i v' r.files (get_shard_index xxh3 q)) q)
              (own ∙ rw (==_true {a = i} refl) refl)
              (λ q other.
                others q other
                ∙ r.reads q
                ∙ rw (c.others q other, contents-at q other (get_shard_index xxh3 q)) refl)

        -- The store has the same values as before but for the key's.
        abbrev pub Changed-Represents : Represents xxh3 f' now
        Changed-Represents = record {
          tables = at i t' r.tables;
          files = at i v' r.files;
          valid = now-Valid;
          reads = now-reads;
        }
