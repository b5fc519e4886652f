-- ===== src/Tests.antt =====
-- The data on which the theorems are tried out, and their applications in the child modules.
mod Tables
mod Caches
mod Files
mod Shards
mod Rebuilds
mod Stores
mod Sessions
mod Overfull
use kvs_cash_machine.ByteArray.{ByteArray}
use kvs_cash_machine.Common.{ℕ, ◌+◌, ◌*◌, List, [], ◌∷◌, get_or}
use kvs_cash_machine.Entry.{Entry}
use kvs_cash_machine.Key
use kvs_cash_machine.Key.{Key}
use kvs_cash_machine.Ptr.{Ptr}

-- A key by its first byte; the others are zero.
abbrev pub key : ℕ → Key
key n = record { bytes = Key.load 16 (n ∷ []) }

-- A pointer to a present value of an index.
abbrev pub entry : ℕ → ℕ → Entry
entry n index = record { key = key n; ptr = record { raw = 128 + index } }

-- A hash by which all keys collide, and one in the place of XXH3.
abbrev pub one_hash : Key → ℕ
one_hash k = 7

abbrev pub sum_hash : ByteArray → ℕ → ℕ
sum_hash bytes seed = get_or bytes 0 0 + 3 * seed
