-- ===== src/ShardBuilder/Create.antt =====
-- `createShard` of src/ShardBuilder.cpp.
use kvs_cash_machine.BloomFilter.Laws.{new_lem}
use kvs_cash_machine.ByteArray.{ByteArray, zeros}
use kvs_cash_machine.Common.{
  ℕ, ◌≡◌, ◌≢◌, sym, ap, refl, true, false, none, [], inl, ==_true, ==_false, if◌then◌else◌, ◌==◌,
  arith,
}
use kvs_cash_machine.Constants.{storage_hash_table_initial_size}
use kvs_cash_machine.Disk.{FilePath, Disk, values, index, directory, put_file, put_file_self}
use kvs_cash_machine.Key.{Key}
use kvs_cash_machine.Outcome.{ok, err, kvs_exception, failed_to_create_shard_directory}
use kvs_cash_machine.Ptr.{Ptr}
use kvs_cash_machine.Shard
use kvs_cash_machine.Shard.Files.{store_table_lem}
use kvs_cash_machine.Shard.Frame.{put_both, put_both-values, put_both-Framed}
use kvs_cash_machine.Shard.Sound.{Sound, raw, contents, contents_low}
use kvs_cash_machine.Shard.Valid.{Holds}
use kvs_cash_machine.Shard.{Shard, State, hash}
use kvs_cash_machine.ShardBuilder.{create_directory, create_shard}
use kvs_cash_machine.Storage.{write_file}
use kvs_cash_machine.StorageHashTable
use kvs_cash_machine.StorageHashTable.Bytes.{serialize_to_byte_array}
use kvs_cash_machine.StorageHashTable.Valid.{with_size-IsValid}
use kvs_cash_machine.StorageHashTable.{StorageHashTable}

-- The table of a new shard.
abbrev pub start : StorageHashTable
start = StorageHashTable.with_size storage_hash_table_initial_size

module _ (xxh3 : ByteArray → ℕ → ℕ) where
  pub start-raw : (k : Key) → raw start k ≡ 127
  start-raw k =
      ap Ptr.raw ((with_size-IsValid (hash xxh3) storage_hash_table_initial_size (omega arith)).2 k)

  -- A table with no entries and no values agree.
  pub start-Sound : Sound xxh3 start []
  unfolding StorageHashTable.with_size
  start-Sound =
      let (valid, size, empty) =
        with_size-IsValid (hash xxh3) storage_hash_table_initial_size (omega arith) in
      record {
        table = valid;
        sizes = inl size;
        blocks = omega arith;
        range = λ k ne. absurd (ne (start-raw k));
        apart = λ k q ne _ _. absurd (ne (start-raw k));
      }

  module _ (i seed₁ seed₂ : ℕ) (d : Disk) where
    -- What `createShard` leaves: a valid shard with no values, and the other shards' files and
    -- directories as they were.
    pub record Created (shard : Shard) (d' : Disk) : Type 0 where
      pub holds : Holds xxh3 i (record { shard = shard; disk = d' }) start []
      pub empty : (k : Key) → contents start [] k ≡ none
      pub count : shard.alive_values_cnt ≡ 0
      pub files : (path : FilePath) → directory path ≢ i → d'.file path ≡ d.file path
      pub directories : (j : ℕ) → j ≢ i → d'.has_directory j ≡ d.has_directory j
      pub denied : (j : ℕ) → d'.denied j ≡ d.denied j

    with_directory : Disk
    with_directory = record d { has_directory = λ j. if i == j then true else d.has_directory j }

    -- `createShard` on a disk that lets it create the directory succeeds, and leaves a valid shard
    -- with no values and a counter of zero; the other shards' files are as they were.
    pub create_shard-Created :
        d.denied i ≡ false
        → (shard : Shard) × (d' : Disk) × (create_shard i seed₁ seed₂ d ≡ (ok shard, d'))
          × Created shard d'
    unfolding create_shard create_directory write_file directory with_directory zeros Shard.new
    create_shard-Created allowed =
        let bytes = serialize_to_byte_array start in
        let there : with_directory.has_directory i ≡ true = rw (==_true {a = i} refl) in
        let framed = put_both-Framed i with_directory [] bytes in
        let d' = put_both i with_directory [] bytes in
        (
          Shard.new seed₁ seed₂,
          d',
          rw (
            allowed,
            there,
            store_table_lem i (put_file with_directory (values i) []) start there,
          ),
          record {
            holds = record {
              directory = there;
              index_file = put_file_self (put_file with_directory (values i) []) (index i) bytes;
              values_file = put_both-values i with_directory [] bytes;
              sound = start-Sound;
              filter = (new_lem xxh3 seed₁ seed₂).0;
              confirmed = λ k ne. absurd (ne (start-raw k));
            };
            empty = λ k. contents_low start [] k (omega (arith, start-raw k));
            count = refl;
            files = framed.files;
            directories = λ j ne. rw (==_false (λ e. ne (sym e)));
            denied = λ j. refl;
          },
        )

    -- If the directory cannot be created, `createShard` throws FAILED_TO_CREATE_SHARD_DIRECTORY, and
    -- nothing has changed.
    pub create_shard-denied :
        d.denied i ≡ true
        → create_shard i seed₁ seed₂ d ≡ (err (kvs_exception failed_to_create_shard_directory), d)
    unfolding create_shard create_directory
    create_shard-denied denied = rw denied
