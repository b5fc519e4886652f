-- ===== src/ByteArray.antt =====
-- include/ByteArray.h and src/ByteArray.cpp: an owned array of bytes, here the list of them. A
-- copy is a value of its own, so `get` gives no aliasing to model.
use kvs_cash_machine.Common.{ℕ, List, [], ◌∷◌, replicate, Bool, true, false, ◌==◌, ◌&&◌}

abbrev pub ByteArray : Type 0
ByteArray = List ℕ

-- `ByteArray::ByteArray(size_t)`: that many zero bytes
unfoldable pub zeros : ℕ → ByteArray
zeros length = replicate length 0

-- The loop of `Value::operator==`, after the test of the lengths, and that test.
unfoldable pub bytes_eq : ByteArray → ByteArray → Bool
bytes_eq [] [] = true
bytes_eq [] (y ∷ ys) = false
bytes_eq (x ∷ xs) [] = false
bytes_eq (x ∷ xs) (y ∷ ys) = x == y && bytes_eq xs ys
