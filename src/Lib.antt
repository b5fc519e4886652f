-- ===== src/Lib.antt =====
-- kvs-cash-machine: a key-value store on disk.
--
-- The store (`KVS`, include/KVS.h, src/KVS.cpp) splits its keys by hash over 4981 shards and keeps the
-- pointers of recently used keys in a cache map. A shard (`Shard`) has two files, the values of 2048
-- bytes each and a hash table from keys to pointers (`StorageHashTable`), and in memory a Bloom filter
-- and a counter. A removal changes the cached pointer; it is written to the shard when the cache map
-- displaces the entry. A shard with too many dead values is rebuilt (`ShardBuilder`).
--
-- The files, from the bottom up:
--
-- - Common, with its children, passes library names on and has lists, parts of lists, tests and bits
--   of bytes over the native ℕ.
-- - Outcome: `KVSException`, the other exceptions, failed assertions and `std::terminate` as values of
--   one type `Error`, in `Result`. Action: computations that change a state and may stop early.
-- - Constants, ByteArray, Key, Value, Ptr, Entry: include/KeyValueTypes.h, src/KeyValueTypes.cpp,
--   include/ByteArray.h and src/ByteArray.cpp, one definition for each method.
-- - Probe: `findNextByPredicate`, which src/StorageHashTable.cpp and src/CacheMap.cpp both have a copy
--   of. Its children have what linear probing needs: distances round the table, what the search finds,
--   a table read as a map (`view`), and what a write or a removal does to that map.
-- - StorageHashTable: the table of a shard. `get` returns a reference, here the index of its slot
--   (`locate`), from which `deref` reads and to which `assign` writes. `put` and `expand` call each
--   other: `put_nested n` is `put` with at most `n` calls of `expand` inside each other, and `put` is
--   `put_nested 7`; the theorems on `put` show that the bound is not met. Bytes has the byte format.
-- - CacheMap: the table of recent pointers. The random number that picks an entry is an argument, and
--   the theorems hold for each. The loop that looks backwards has as many rounds as there are slots.
-- - BloomFilter: the filter; the seeds that its constructor draws are arguments.
-- - Disk and Storage: files by their paths, as lists of bytes, and the operations of
--   include/Storage.h and src/Storage.cpp on them. A stream is its path; what is written is on the
--   disk at once.
-- - Shard, with Counter, Directly and Methods: include/Shard.h and src/Shard.cpp, on the object and
--   the disk. Sound and Valid have the invariant of a shard, that its table, its values and its filter
--   agree, and `contents`, the shard as a map from keys to values. Read, Write, Overwrite and Remove
--   have the methods against that map; Blocks, Files, Filter, Frame, Change and Pointers serve them.
-- - ShardBuilder: include/ShardBuilder.h and src/ShardBuilder.cpp. Create is on new shards. The rebuild
--   is followed from one copied value (Copy) over one round of the loop (Step) and the loop (Loop) to
--   the exchange of the files (Rename, Swap) and the whole (RebuildShard); Forgotten has an assertion
--   that fails.
-- - Kvs: include/KVS.h and src/KVS.cpp, on the shards, the cache map, the disk and the random numbers
--   that are still to be drawn. Valid has the invariant of the store and `Represents`, by which it is
--   a map from keys to values; New, Get, Add, Remove and Rebuild have the operations against that map,
--   with a module for each branch that takes some work (GetUncached, AddNew, AddHere, RemoveUncached,
--   RemovePresent, Due), and OneKey has the maps.
--   One kind of theorem is for a cache map that is at most two thirds full (`HasRoom`), so that nothing
--   is displaced; After, Change, Room, Stages, UpdateCache and Moved serve it, and Became says what the
--   operations keep besides. The other is for a store in which no rebuild is due (`AreTight`), where
--   `get` and `add` may displace an entry: Push has `pushOperation`, Displaced, Left and Kept the store
--   after it, and ThenPush the end of both operations; there `remove` is on a key that the cache map
--   has, where no rebuild gets due. `NoneForgotten` excludes a case in which an assertion of
--   `rebuildShard` fails, a key that the cache map has as NONEXISTENT and that still has an entry in
--   its shard; no key is forgotten while the cache map has every key of the tables (Due). Counter
--   and Live are on the shards' counters, with StorageHashTable/Number and Keys.
--   Session has sequences of calls and the map that they compute, with the number of live keys of
--   each shard; Ready and Life follow a store through them, from its constructor on. The limit of
--   3334 calls keeps the cache map of 5000 slots at two thirds before each of them. After entries
--   were displaced, a `remove` that rebuilds the shard or that displaces another entry is not
--   followed further, since it may end in a failed assertion; Overfull is on the loop of
--   `rebuildShard` with a cache map that is too full.
-- - Tests applies the theorems to concrete data.
--
-- A parameter `xxh3` stands for `XXH3_64bits_withSeed` of the library xxHash, and `hash` for `hashKey`
-- with its default seed. Nothing is assumed of them.
--
-- A key has 16 bytes by its type. A `size_t` that is a length or a count is a natural number; where
-- the code relies on the wrapping of one, and in the counter of a shard, which is one byte, the modulus
-- is written out. Assertions are those of a build without NDEBUG. Errors of the operating system in
-- the middle of a read, a write or a close are not modelled. The logic is sequential, as the code is.
-- The tests, the benchmark, and the copy of doctest in include/ are not modelled.
pub mod Common
pub mod Outcome
pub mod Constants
pub mod ByteArray
pub mod Key
pub mod Value
pub mod Ptr
pub mod Entry
pub mod Probe
pub mod StorageHashTable
pub mod CacheMap
pub mod Action
pub mod Disk
pub mod Storage
pub mod Shard
pub mod ShardBuilder
pub mod Kvs
pub mod BloomFilter
mod Tests
