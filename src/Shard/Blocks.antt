-- ===== src/Shard/Blocks.antt =====
-- The values file of src/Shard.cpp as a sequence of blocks of VALUE_SIZE bytes, which pointers name
-- by their index.
use kvs_cash_machine.ByteArray.{ByteArray}
use kvs_cash_machine.Common.{
  ℕ, ◌+◌, ◌*◌, ◌≤◌, ◌<◌, ◌≡◌, ◌≢◌, ◌⊎◌, inl, inr, sym, ◌∙◌, ◌++◌, length, length-append,
  drop-append, part, part-append_le, take_self, length-take, length-drop, drop, ap, take, arith,
}
use native.Mathlib.Decide.{dec_lt}
use kvs_cash_machine.Constants.{value_size}
use kvs_cash_machine.Storage.Laws.{length-overwrite, part-overwrite, part-overwrite_apart}
use kvs_cash_machine.Storage.{overwrite}

-- The block of an index.
abbrev pub block : ℕ → ByteArray → ByteArray
block i v = part (i * value_size) value_size v

-- The file has `n` blocks.
abbrev pub HasBlocks : ℕ → ByteArray → Type 0
HasBlocks n v = length v ≡ n * value_size

pub length-block :
    (i : ℕ) (v : ByteArray)
    → i * value_size + value_size ≤ length v
    → length (block i v) ≡ value_size
length-block i v h =
    omega (arith, length-take value_size (drop (i * value_size) v), length-drop (i * value_size) v)

module _ (n i : ℕ) (v bytes : ByteArray) (blocks : HasBlocks n v) (inside : i < n)
    (whole : length bytes ≡ value_size) where
  pub overwrite-HasBlocks : HasBlocks n (overwrite v (i * value_size) bytes)
  overwrite-HasBlocks = length-overwrite v (i * value_size) bytes (omega arith) ∙ omega arith

  pub block-overwrite_self : block i (overwrite v (i * value_size) bytes) ≡ bytes
  block-overwrite_self =
      ap (λ k. part (i * value_size) k (overwrite v (i * value_size) bytes)) (sym whole)
      ∙ part-overwrite v (i * value_size) bytes (omega arith)

  pub block-overwrite_ne :
      (j : ℕ) → j < n → j ≢ i → block j (overwrite v (i * value_size) bytes) ≡ block j v
  block-overwrite_ne j lt ne =
      part-overwrite_apart v (i * value_size) bytes (omega arith) (j * value_size) value_size
        (omega arith) apart
    where
      apart :
          (j * value_size + value_size ≤ i * value_size)
          ⊎ (i * value_size + length bytes ≤ j * value_size)
      apart = elim (dec_lt j i) [ yes before ↦ inl (omega arith) | no behind ↦ inr (omega arith) ]

module _ (n : ℕ) (v bytes : ByteArray) (blocks : HasBlocks n v)
    (whole : length bytes ≡ value_size) where
  pub append-HasBlocks : HasBlocks (n + 1) (v ++ bytes)
  append-HasBlocks = omega (arith, length-append v bytes)

  pub block-append_self : block n (v ++ bytes) ≡ bytes
  block-append_self =
      rw (← blocks, drop-append v bytes) (ap (λ k. take k bytes) (sym whole) ∙ take_self bytes)

  pub block-append_lt : (j : ℕ) → j < n → block j (v ++ bytes) ≡ block j v
  block-append_lt j lt = part-append_le (j * value_size) value_size v bytes (omega arith)
