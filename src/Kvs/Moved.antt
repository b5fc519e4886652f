-- ===== src/Kvs/Moved.antt =====
-- The store of src/KVS.cpp after one shard was rebuilt.
use kvs_cash_machine.ByteArray.{ByteArray}
use kvs_cash_machine.CacheMap.{CacheMap}
use kvs_cash_machine.Common.{
  ℕ, ◌+◌, ◌≤◌, ◌<◌, ◌≡◌, ◌≢◌, ◌∙◌, ◌⊎◌, inr, sym, refl, Option, true, length, get_or-set_self,
  get_or-set_ne, length-set, ==_true, ==_false, arith,
}
use mathlib.Core.Path.{subst}
use native.Mathlib.Decide.{ℕ_discrete}
use kvs_cash_machine.Constants.{shard_number}
use kvs_cash_machine.Disk.{Disk}
use kvs_cash_machine.Key.{Key}
use kvs_cash_machine.Kvs.{Kvs, shard_at}
use kvs_cash_machine.Kvs.Counter.{alive_number, alive_number_all, alive_number_elsewhere}
use kvs_cash_machine.Shard
use kvs_cash_machine.Kvs.Became.{Covers, IsCovered, Settled}
use kvs_cash_machine.Kvs.After.{at, after, shards_hold}
use kvs_cash_machine.Kvs.Valid.{state_at, Coherent, lookup, Represents, alive}
use kvs_cash_machine.Shard.{Shard, State, hash, get_shard_index}
use kvs_cash_machine.Shard.Sound.{raw, contents_low}
use kvs_cash_machine.ShardBuilder.Step.{cached}
use kvs_cash_machine.StorageHashTable.{StorageHashTable}
use kvs_cash_machine.Value.{Value}
use kvs_cash_machine.CacheMap
use kvs_cash_machine.Kvs.Valid
use kvs_cash_machine.Shard.Frame.{Framed}
use kvs_cash_machine.Shard.Valid.{Holds}

-- What a rebuild does to the keys of the shard's table `t`, with the cache map `m` and the new table `t'`.
pub record Moved (xxh3 : ByteArray → ℕ → ℕ) (m : CacheMap) (t : StorageHashTable) (v : ByteArray)
    (m' : CacheMap) (t' : StorageHashTable) (v' : ByteArray) : Type 0 where
  pub cache : CacheMap.Valid.IsValid (hash xxh3) m'
  pub size : length m'.entries ≡ length m.entries
  pub unchanged : (k : Key) → raw t k ≡ 127 → cached m' k ≡ cached m k
  pub absent : (k : Key) → raw t k ≡ 127 → raw t' k ≡ 127
  pub coherent : (k : Key) → raw t k ≢ 127 → Coherent (cached m' k) (raw t' k)
  pub reads : (k : Key) → raw t k ≢ 127 → lookup m t v k ≡ lookup m' t' v' k
  pub alive : (k : Key) → raw t' k ≢ 127 → Valid.alive m' t' k ≡ true
  pub covered :
      (k : Key)
      → raw t k ≢ 127
      → (cached m k < 126) ⊎ (128 ≤ cached m k)
      → raw t' k ≢ 127
      → 128 ≤ cached m' k

module _ (xxh3 : ByteArray → ℕ → ℕ) (f : Key → Option Value) (s : Kvs) (r : Represents xxh3 f s)
    (n : ℕ) (lt : n < shard_number) (new : Shard) (d : Disk) (t' : StorageHashTable)
    (v' : ByteArray) (holds : Holds xxh3 n (record { shard = new; disk = d }) t' v')
    (framed : Framed n s.disk d) (count : new.alive_values_cnt ≡ t'.used_size)
    (fewer : t'.used_size ≤ (r.tables n).used_size) (m' : CacheMap)
    (moved : Moved xxh3 s.cache_map (r.tables n) (r.files n) m' t' v') (random : ℕ → ℕ) where
  abbrev t : StorageHashTable
  t = r.tables n

  abbrev v : ByteArray
  v = r.files n

  abbrev s' : State
  s' = record { shard = new; disk = d }

  abbrev pub now : Kvs
  now = after s n s' m' random

  abbrev m : CacheMap
  m = s.cache_map

  -- A key without an entry.
  Coherent-absent :
      (k : Key)
      → raw t k ≡ 127
      → Coherent (cached m k) (raw t k)
      → Coherent (cached m' k) (raw t' k)
  Coherent-absent k e c =
      rw (moved.unchanged k e, moved.absent k e) (subst (λ x. Coherent (cached m k) x) e c)

  reads_absent : (k : Key) → raw t k ≡ 127 → lookup m t v k ≡ lookup m' t' v' k
  unfolding lookup
  reads_absent k e =
      rw
        (
          moved.unchanged k e,
          contents_low t v k (omega (arith, e)),
          contents_low t' v' k (omega (arith, moved.absent k e)),
        )
        refl

  same_lookup :
      (k : Key)
      → cached m' k ≡ cached m k
      → (t : StorageHashTable) (v : ByteArray) → lookup m t v k ≡ lookup m' t v k
  unfolding lookup
  same_lookup k e t v = rw e refl

  -- A key of another shard.
  elsewhere : (k : Key) → n ≢ get_shard_index xxh3 k → raw t k ≡ 127
  elsewhere k ne = elim (ℕ_discrete (raw t k) 127) [
    | yes e ↦ e
    | no there ↦ absurd (ne (sym (r.valid.own n k lt there)))
  ]

  pub now-Coherent :
      (k : Key) → Coherent (cached m' k) (raw (at n t' r.tables (get_shard_index xxh3 k)) k)
  now-Coherent k = elim (ℕ_discrete n (get_shard_index xxh3 k)) [
    | yes same ↦ rw (==_true same) (elim (ℕ_discrete (raw t k) 127) [
      | yes e ↦
          Coherent-absent k e (
            subst (λ j. Coherent (cached m k) (raw (r.tables j) k)) (sym same) (r.valid.coherent k))
      | no ne ↦ moved.coherent k ne
    ])
    | no other ↦ rw (==_false other, moved.unchanged k (elsewhere k other)) (r.valid.coherent k)
  ]

  pub now-reads :
      (k : Key)
      → f k
        ≡ lookup m'
            (at n t' r.tables (get_shard_index xxh3 k))
            (at n v' r.files (get_shard_index xxh3 k))
            k
  now-reads k = elim (ℕ_discrete n (get_shard_index xxh3 k)) [
    | yes same ↦
        r.reads k
        ∙ subst (λ j. lookup m (r.tables j) (r.files j) k ≡ lookup m t v k) same refl
        ∙ rw (==_true same) (elim (ℕ_discrete (raw t k) 127) [
          | yes e ↦ reads_absent k e
          | no ne ↦ moved.reads k ne
        ])
    | no other ↦
        r.reads k
        ∙ rw (==_false other) (
            same_lookup k (moved.unchanged k (elsewhere k other))
              (r.tables (get_shard_index xxh3 k)) (r.files (get_shard_index xxh3 k)))
  ]

  pub now-own :
      (j : ℕ) (k : Key)
      → j < shard_number
      → raw (at n t' r.tables j) k ≢ 127
      → get_shard_index xxh3 k ≡ j
  now-own j k less = elim (ℕ_discrete n j) [
    | yes e ↦ rw (==_true e) (λ ne. r.valid.own n k lt (λ z. ne (moved.absent k z)) ∙ e)
    | no ne' ↦ rw (==_false ne') (r.valid.own j k less)
  ]

  elsewhere_count :
      (j : ℕ)
      → j < shard_number
      → n ≢ j
      → (shard_at s j).alive_values_cnt ≡ alive_number m' (r.tables j)
  elsewhere_count j less ne =
      r.valid.counts j less
      ∙ sym (
          alive_number_elsewhere xxh3 (r.tables j) (r.files j) (r.valid.holds j less).sound m m'
            (λ k stored.
              moved.unchanged k (elsewhere k (λ e. ne (e ∙ r.valid.own j k less stored)))))

  inside : n < length s.shards
  inside = rw r.valid.number lt

  pub now-counts :
      (j : ℕ)
      → j < shard_number
      → (shard_at now j).alive_values_cnt ≡ alive_number m' (at n t' r.tables j)
  now-counts j less = elim (ℕ_discrete n j) [
    | yes e ↦
        subst (λ j. (shard_at now j).alive_values_cnt ≡ alive_number m' (at n t' r.tables j)) e
          (rw (==_true {a = n} refl, get_or-set_self s.shards n new (Shard.new 0 0) inside)
            (count ∙ sym (alive_number_all xxh3 t' v' holds.sound m' moved.alive)))
    | no ne ↦
        rw (==_false ne, get_or-set_ne s.shards new (Shard.new 0 0) ne) (elsewhere_count j less ne)
  ]

  abbrev pub now-Represents : Represents xxh3 f now
  now-Represents = record {
    tables = at n t' r.tables;
    files = at n v' r.files;
    valid = record {
      cache = moved.cache;
      number = length-set s.shards n new ∙ r.valid.number;
      holds =
          shards_hold xxh3 s r.tables r.files r.valid.number r.valid.holds n lt s' t' v' holds
            framed m' random;
      own = now-own;
      coherent = now-Coherent;
      counts = now-counts;
    };
    reads = now-reads;
  }

  now-IsCovered : IsCovered xxh3 f s r → IsCovered xxh3 f now now-Represents
  now-IsCovered covered k = elim (ℕ_discrete n (get_shard_index xxh3 k)) [
    | yes same ↦ rw (==_true same) (λ there.
        let stored : raw t k ≢ 127 = (λ z. there (moved.absent k z)) in
        let before = subst (λ j. Covers m (r.tables j) k) (sym same) (covered k) stored in
        inr (moved.covered k stored before there))
    | no other ↦ rw (==_false other, moved.unchanged k (elsewhere k other)) (covered k)
  ]

  now-fewer : (j : ℕ) → j < shard_number → (at n t' r.tables j).used_size ≤ (r.tables j).used_size
  now-fewer j less = elim (ℕ_discrete n j) [
    | yes e ↦
        subst (λ j. (at n t' r.tables j).used_size ≤ (r.tables j).used_size) e
          (rw (==_true {a = n} refl) fewer)
    | no ne ↦ rw (==_false ne) (omega arith)
  ]

  pub now-Settled : m'.used_size ≤ m.used_size + 1 → Settled xxh3 f f s now r now-Represents n
  now-Settled used = record {
    grown = record { size = moved.size; used = used };
    fewer = now-fewer;
    covered = now-IsCovered;
    here =
        rw (==_true {a = n} refl, get_or-set_self s.shards n new (Shard.new 0 0) inside)
          (omega (arith, count));
    others =
        λ j less ne tight. rw (==_false ne, get_or-set_ne s.shards new (Shard.new 0 0) ne) tight;
  }
