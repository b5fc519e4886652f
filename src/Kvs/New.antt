-- ===== src/Kvs/New.antt =====
-- The constructor of src/KVS.cpp.
use kvs_cash_machine.ByteArray.{ByteArray}
use kvs_cash_machine.CacheMap
use kvs_cash_machine.CacheMap.Valid.{map_with_size-IsValid}
use kvs_cash_machine.Common.{
  ℕ, zero, suc, ◌+◌, ◌*◌, ◌<◌, ◌≡◌, ◌∙◌, sym, ap, refl, false, none, List, [], ◌∷◌, get_or, length,
  arith,
}
use mathlib.Core.Path.{subst}
use kvs_cash_machine.Constants.{shard_number, cache_map_size}
use kvs_cash_machine.Disk.{Disk, FilePath, directory, values, index}
use kvs_cash_machine.Kvs.{Kvs, create_shards, new}
use kvs_cash_machine.Kvs.Counter.{alive_number-le}
use kvs_cash_machine.Kvs.Stages.{lookup_high}
use kvs_cash_machine.Kvs.Valid.{Represents}
use kvs_cash_machine.Outcome.{ok}
use kvs_cash_machine.Ptr.{Ptr}
use kvs_cash_machine.Shard
use kvs_cash_machine.Shard.{Shard, State, hash, get_shard_index}
use kvs_cash_machine.Shard.Sound.{contents_low}
use kvs_cash_machine.Shard.Valid.{Holds}
use kvs_cash_machine.ShardBuilder.Create.{
  start-Sound, start, start-raw, Created, create_shard-Created,
}
use kvs_cash_machine.ShardBuilder.Step.{cached}
use kvs_cash_machine.StorageHashTable
use kvs_cash_machine.StorageHashTable.{StorageHashTable}

module _ (xxh3 : ByteArray → ℕ → ℕ) where
  -- A shard is valid on every disk with its files and its directory.
  Holds-moved :
      (i : ℕ) (shard : Shard) (d d' : Disk) (t : StorageHashTable) (v : ByteArray)
      → d'.has_directory i ≡ d.has_directory i
      → d'.file (index i) ≡ d.file (index i)
      → d'.file (values i) ≡ d.file (values i)
      → Holds xxh3 i (record { shard = shard; disk = d }) t v
      → Holds xxh3 i (record { shard = shard; disk = d' }) t v
  Holds-moved i shard d d' t v there same_index same_values h = record {
    directory = there ∙ h.directory;
    index_file = same_index ∙ h.index_file;
    values_file = same_values ∙ h.values_file;
    sound = h.sound;
    filter = h.filter;
    confirmed = h.confirmed;
  }

  -- The shards from `i` on are there with no values; those before are as they were.
  record Opened (n i : ℕ) (d : Disk) (shards : List Shard) (d' : Disk) : Type 0 where
    number : length shards ≡ n
    holds :
        (j : ℕ)
        → j < n
        → Holds xxh3
            (i + j)
            (record { shard = get_or shards j (Shard.new 0 0); disk = d' })
            start
            []
    zero_counts : (j : ℕ) → j < n → (get_or shards j (Shard.new 0 0)).alive_values_cnt ≡ 0
    files : (path : FilePath) → directory path < i → d'.file path ≡ d.file path
    directories : (j : ℕ) → j < i → d'.has_directory j ≡ d.has_directory j

  module _ (n i : ℕ) (seed₁ seed₂ : ℕ) (d : Disk) (shard : Shard) (d₁ : Disk)
      (c : Created xxh3 i seed₁ seed₂ d shard d₁) (shards : List Shard) (d' : Disk)
      (rest : Opened n (i + 1) d₁ shards d') where
    first_holds : Holds xxh3 i (record { shard = shard; disk = d' }) start []
    unfolding directory
    first_holds =
        Holds-moved i shard d₁ d' start [] (rest.directories i (omega arith))
          (rest.files (index i) (omega arith)) (rest.files (values i) (omega arith)) c.holds

    all_hold :
        (j : ℕ)
        → j < suc n
        → Holds xxh3
            (i + j)
            (record { shard = get_or (shard ∷ shards) j (Shard.new 0 0); disk = d' })
            start
            []
    all_hold zero lt =
        subst (λ k. Holds xxh3 k (record { shard = shard; disk = d' }) start []) (omega arith)
          first_holds
    all_hold (suc j) lt =
        subst
          (λ k.
            Holds xxh3 k (record { shard = get_or shards j (Shard.new 0 0); disk = d' }) start [])
          (omega arith) (rest.holds j (omega arith))

    all_zero :
        (j : ℕ) → j < suc n → (get_or (shard ∷ shards) j (Shard.new 0 0)).alive_values_cnt ≡ 0
    all_zero zero lt = c.count
    all_zero (suc j) lt = rest.zero_counts j (omega arith)

    joined : Opened (suc n) i d (shard ∷ shards) d'
    joined = record {
      number = ap suc rest.number;
      holds = all_hold;
      zero_counts = all_zero;
      files = λ path lt. rest.files path (omega arith) ∙ c.files path (λ e. omega arith);
      directories = λ j lt. rest.directories j (omega arith) ∙ c.directories j (λ e. omega arith);
    }

  create_shards-Opened :
      (n i : ℕ) (random : ℕ → ℕ) (d : Disk)
      → ((j : ℕ) → d.denied j ≡ false)
      → (shards : List Shard) × (d' : Disk) × (create_shards n i random d ≡ (ok shards, d'))
        × Opened n i d shards d'
  unfolding create_shards
  create_shards-Opened zero i random d allowed = (
    [],
    d,
    refl,
    record {
      number = refl;
      holds = λ j lt. absurd (omega arith);
      zero_counts = λ j lt. absurd (omega arith);
      files = λ path lt. refl;
      directories = λ j lt. refl;
    },
  )
  create_shards-Opened (suc n) i random d allowed =
      let (shard, d₁, created, c) =
        create_shard-Created xxh3 i (random 0) (random 1) d (allowed i) in
      let (shards, d', opened, rest) =
        create_shards-Opened n (i + 1) (λ k. random (k + 2)) d₁ (λ j. c.denied j ∙ allowed j) in
      (
        shard ∷ shards,
        d',
        rw (created, opened) refl,
        joined n i (random 0) (random 1) d shard d₁ c shards d' rest,
      )

  -- The constructor, on a disk that lets it create every shard's directory, succeeds: the store is
  -- valid, with counters that are right, and has no values, its tables are those of new shards, and its cache map is a new one.
  pub new-Represents :
      (random : ℕ → ℕ) (d : Disk)
      → ((j : ℕ) → d.denied j ≡ false)
      → (s : Kvs) × (d' : Disk) × (new random d ≡ (ok s, d'))
        × (r : Represents xxh3 (λ k. none) s) × ((i : ℕ) → r.tables i ≡ start)
        × (s.cache_map ≡ CacheMap.with_size cache_map_size)
  unfolding new StorageHashTable.with_size
  new-Represents random d allowed =
      let (shards, d', created, o) = create_shards-Opened shard_number 0 random d allowed in
      let (valid, empty) = map_with_size-IsValid (hash xxh3) cache_map_size (omega arith) in
      let s : Kvs = record {
        shards = shards;
        cache_map = CacheMap.with_size cache_map_size;
        disk = d';
        random = λ k. random (k + 2 * shard_number);
      } in
      (
        s,
        d',
        rw created refl,
        record {
          tables = λ i. start;
          files = λ i. [];
          valid = record {
            cache = valid;
            number = o.number;
            holds = λ i lt.
                subst
                  (λ k.
                    Holds xxh3 k (record { shard = get_or shards i (Shard.new 0 0); disk = d' })
                      start [])
                  (omega arith) (o.holds i lt);
            own = λ i k lt ne. absurd (ne (start-raw xxh3 k));
            coherent = λ k.
                let c : cached s.cache_map k ≡ 127 = ap Ptr.raw (empty k) in
                record {
                  byte = omega (arith, c);
                  present = λ z. absurd (omega (arith, z, c));
                  deleted = λ z. absurd (omega (arith, z, c));
                  nonexistent = λ z. absurd (omega (arith, z, c));
                };
            counts = λ i lt. omega (
              arith,
              o.zero_counts i lt,
              alive_number-le xxh3 start [] (start-Sound xxh3) s.cache_map,
            );
          };
          reads = λ k.
              let c : cached s.cache_map k ≡ 127 = ap Ptr.raw (empty k) in
              sym (
                lookup_high s.cache_map start [] k (omega (arith, c))
                ∙ contents_low start [] k (omega (arith, start-raw xxh3 k)));
        },
        λ i. refl,
        refl,
      )
