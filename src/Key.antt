-- ===== src/Key.antt =====
-- `Key` of include/KeyValueTypes.h and src/KeyValueTypes.cpp: exactly KEY_SIZE bytes, which the
-- constructor asserts and the type of the model holds.
pub mod Laws
use kvs_cash_machine.ByteArray.{ByteArray}
use kvs_cash_machine.Common.{ℕ, zero, suc, Bool, true, false, ◌&&◌, ◌==◌, List, [], ◌∷◌, length}
use kvs_cash_machine.Constants.{key_size}
use kvs_cash_machine.Outcome.{Result, ok, ◌>>◌, assert}

pub data Bytes : ℕ → Type 0 where
  end : Bytes zero
  byte : {n : ℕ} → ℕ → Bytes n → Bytes (suc n)

-- `class Key`
pub record Key : Type 0 where
  pub bytes : Bytes key_size

-- `memcmp(a, b, n) == 0`
unfoldable pub memcmp_eq : {n : ℕ} → Bytes n → Bytes n → Bool
memcmp_eq end end = true
memcmp_eq (byte x v) (byte y w) = x == y && memcmp_eq v w

-- `memcpy` of the first `n` bytes of an array into a buffer of that size. A read past the end of
-- the array, which no caller makes, gives zeros.
unfoldable pub load : (n : ℕ) → ByteArray → Bytes n
load zero a = end
load (suc n) [] = byte 0 (load n [])
load (suc n) (x ∷ a) = byte x (load n a)

unfoldable pub store : {n : ℕ} → Bytes n → ByteArray
store end = []
store (byte x v) = x ∷ store v

-- `Key::operator==`
unfoldable pub eq : Key → Key → Bool
unfolding memcmp_eq
eq a b = memcmp_eq a.bytes b.bytes

-- `Key::Key(ByteArray)`
unfoldable pub of_bytes : ByteArray → Result Key
of_bytes a = do assert (length a == key_size); ok (record { bytes = load key_size a })

-- `hashKey`. `xxh3` stands for `XXH3_64bits_withSeed` of the library xxHash, over the KEY_SIZE bytes
-- of the key.
unfoldable pub hash_key : (ByteArray → ℕ → ℕ) → Key → ℕ → ℕ
hash_key xxh3 key seed = xxh3 (store key.bytes) seed

-- `Key()`, with its default argument: KEY_SIZE zero bytes
unfoldable pub default : Key
unfolding load
default = record { bytes = load key_size [] }
