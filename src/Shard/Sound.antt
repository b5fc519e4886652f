-- ===== src/Shard/Sound.antt =====
-- The table and the values of a shard of src/Shard.cpp: what they have to agree on, and what they
-- mean as a map from keys to values.
use kvs_cash_machine.ByteArray.{ByteArray}
use kvs_cash_machine.Common.{
  ℕ, ◌+◌, ◌*◌, ◌%◌, ◌≤◌, ◌<◌, ◌≡◌, ◌≢◌, ◌⊎◌, ap, inl, inr, Option, none, some, if◌then◌else◌, ltb,
  lt→ltb, le→ltb_false, length, arith,
}
use native.Mathlib.Decide.{dec_lt, ℕ_discrete}
use kvs_cash_machine.Constants.{
  value_size, storage_hash_table_initial_size, storage_hash_table_max_size,
}
use kvs_cash_machine.Key.{Key}
use kvs_cash_machine.Probe.Table.{view}
use kvs_cash_machine.Ptr
use kvs_cash_machine.Ptr.Laws.{kind, get_type_lem, get_offset_lem}
use kvs_cash_machine.Ptr.{Ptr, present, deleted, empty_ptr}
use kvs_cash_machine.Shard.Blocks.{block, HasBlocks}
use kvs_cash_machine.Shard.{hash}
use kvs_cash_machine.StorageHashTable
use kvs_cash_machine.StorageHashTable.Valid.{get-view}
use kvs_cash_machine.StorageHashTable.{StorageHashTable}
use kvs_cash_machine.Value.{Value}

-- The byte of the pointer that the table has for a key. 127 is that of EMPTY_PTR, and a pointer to
-- a present value is 128 or more.
abbrev pub raw : StorageHashTable → Key → ℕ
raw t k = (view t.entries k).raw

-- A table has its initial size, or has doubled once.
abbrev pub AllowedSize : StorageHashTable → Type 0
AllowedSize t =
    (length t.entries ≡ storage_hash_table_initial_size)
    ⊎ (length t.entries ≡ storage_hash_table_max_size)

-- What a pointer's byte points to: nothing, or the block of its index.
abbrev pub value_at : ℕ → ByteArray → Option Value
value_at r v = if ltb r 128 then none else some (record { bytes = block (r % 128) v })

-- The shard with the table `t` and the values `v`, as a map from keys to values.
unfoldable pub contents : StorageHashTable → ByteArray → Key → Option Value
contents t v k = value_at (raw t k) v

pub value_at_low : (r : ℕ) (v : ByteArray) → r < 128 → value_at r v ≡ none
value_at_low r v low = rw (lt→ltb r 128 low)

pub value_at_high :
    (r : ℕ) (v : ByteArray) (x : Value)
    → 128 ≤ r
    → block (r % 128) v ≡ x.bytes
    → value_at r v ≡ some x
value_at_high r v x high e = rw (le→ltb_false r 128 high) (ap (λ b. some (record { bytes = b })) e)

module _ (t : StorageHashTable) (v : ByteArray) (k : Key) where
  pub view_empty : raw t k ≡ 127 → view t.entries k ≡ Ptr.empty
  view_empty e = λ i. record { raw = e i }

  pub contents_low : raw t k < 128 → contents t v k ≡ none
  unfolding contents
  contents_low low = ground arith

  pub contents_high :
      128 ≤ raw t k → contents t v k ≡ some (record { bytes = block (raw t k % 128) v })
  unfolding contents
  contents_high high = ground arith

module _ (xxh3 : ByteArray → ℕ → ℕ) where
  -- The table is valid and of an allowed size, the values have a block for each of its entries, and
  -- every pointer is to a block of its own.
  pub record Sound (t : StorageHashTable) (v : ByteArray) : Type 0 where
    pub table : StorageHashTable.Valid.IsValid (hash xxh3) t
    pub sizes : AllowedSize t
    pub blocks : HasBlocks t.used_size v
    pub range : (k : Key) → raw t k ≢ 127 → (raw t k < 256) × (raw t k % 128 < t.used_size)
    pub apart : (k q : Key) → raw t k ≢ 127 → raw t q ≢ 127 → raw t k % 128 ≡ raw t q % 128 → k ≡ q

  module _ (t : StorageHashTable) (v : ByteArray) (h : Sound t v) where
    pub raw-lt : (k : Key) → raw t k < 256
    raw-lt k = elim (ℕ_discrete (raw t k) 127) [ yes e ↦ omega arith | no ne ↦ (h.range k ne).0 ]

    -- A table has at most 45 entries, which is less than a pointer can name.
    pub used-le : t.used_size ≤ 45
    used-le = omega (arith, h.table.load, h.sizes)

    -- A key has no entry, or one of a removed value, or one of a value, and its pointer's type
    -- says which.
    pub entry-cases :
        (k : Key)
        → ((raw t k ≡ 127) × (Ptr.get_type (view t.entries k) ≡ empty_ptr))
          ⊎ (((raw t k < 126) × (Ptr.get_type (view t.entries k) ≡ deleted))
              ⊎ ((128 ≤ raw t k) × (Ptr.get_type (view t.entries k) ≡ present)))
    unfolding kind
    entry-cases k =
        let type = get_type_lem (view t.entries k) (raw-lt k) in
        elim (ℕ_discrete (raw t k) 127) [
          | yes e ↦ inl (e, ground (arith, type))
          | no ne ↦
              let index = (h.range k ne).1 in
              elim (dec_lt (raw t k) 128) [
                | yes low ↦ inr (inl (omega (arith, index, used-le), ground (arith, type, used-le)))
                | no high ↦ inr (inr (omega arith, ground (arith, type)))
              ]
        ]

    -- The pointer of a value lies within the values file.
    pub offset-le :
        (k : Key)
        → raw t k ≢ 127
        → (Ptr.get_offset (view t.entries k) ≡ raw t k % 128 * value_size)
          × (raw t k % 128 * value_size + value_size ≤ length v)
    offset-le k ne =
        (get_offset_lem (view t.entries k) (raw-lt k), omega (arith, h.range k ne, h.blocks))

    pub type_present : (key : Key) → 128 ≤ raw t key → Ptr.get_type (view t.entries key) ≡ present
    type_present key high = elim (entry-cases key) [
      | inl (e, type) ↦ absurd (omega arith)
      | inr (inl (low, type)) ↦ absurd (omega arith)
      | inr (inr (high, type)) ↦ type
    ]

    pub type_deleted : (key : Key) → raw t key < 126 → Ptr.get_type (view t.entries key) ≡ deleted
    type_deleted key low = elim (entry-cases key) [
      | inl (e, type) ↦ absurd (omega arith)
      | inr (inl (low, type)) ↦ type
      | inr (inr (high, type)) ↦ absurd (omega arith)
    ]

    pub type_empty : (key : Key) → raw t key ≡ 127 → Ptr.get_type (view t.entries key) ≡ empty_ptr
    type_empty key e = elim (entry-cases key) [
      | inl (e, type) ↦ type
      | inr (inl (low, type)) ↦ absurd (omega arith)
      | inr (inr (high, type)) ↦ absurd (omega arith)
    ]
