-- ===== src/Ptr/Laws.antt =====
-- What a pointer's byte means.
use kvs_cash_machine.Common.{
  ℕ, ◌*◌, ◌/◌, ◌%◌, ◌+◌, ◌≤◌, ◌<◌, ◌≡◌, ◌≢◌, Bool, arith, bit_and_low, bit_or_top, bit_and_top,
  if◌then◌else◌, ltb, ◌==◌,
}
use kvs_cash_machine.Constants.{value_size}
use kvs_cash_machine.Outcome.{ok}
use kvs_cash_machine.Ptr.{
  Ptr, PtrType, present, deleted, empty_ptr, nonexistent, empty_ptr_v, nonexistent_v, get_index,
  get_offset, get_type, set_value_present, of_offset,
}

-- The type of a byte, by its range.
unfoldable pub kind : ℕ → PtrType
kind raw =
    if raw == empty_ptr_v
    then empty_ptr
    else if raw == nonexistent_v
    then nonexistent
    else if ltb raw 128
    then deleted
    else present

-- `getType` reads the two reserved bytes as such, another byte below 128 as deleted, and one from
-- 128 on as present.
pub get_type_lem : (p : Ptr) → p.raw < 256 → get_type p ≡ kind p.raw
unfolding get_type kind
get_type_lem p h = ground (arith, bit_and_top p.raw h)

module _ (p : Ptr) (byte : p.raw < 256) where
  pub get_type-empty_ptr : p.raw ≡ empty_ptr_v → get_type p ≡ empty_ptr
  unfolding kind
  get_type-empty_ptr e = ground (arith, get_type_lem p byte)

  pub get_type-nonexistent : p.raw ≡ nonexistent_v → get_type p ≡ nonexistent
  unfolding kind
  get_type-nonexistent e = ground (arith, get_type_lem p byte)

  pub get_type-deleted : p.raw < nonexistent_v → get_type p ≡ deleted
  unfolding kind
  get_type-deleted low = ground (arith, get_type_lem p byte)

  pub get_type-present : 128 ≤ p.raw → get_type p ≡ present
  unfolding kind
  get_type-present high = ground (arith, get_type_lem p byte)

-- `getIndex` reads the low seven bits.
pub get_index_lem : (p : Ptr) → p.raw < 256 → get_index p ≡ p.raw % 128
unfolding get_index
get_index_lem p h = bit_and_low p.raw h

pub get_offset_lem : (p : Ptr) → p.raw < 256 → get_offset p ≡ p.raw % 128 * value_size
unfolding get_offset
get_offset_lem p h = rw (get_index_lem p h)

abbrev pub with_flag : ℕ → Bool → ℕ
with_flag index b = if b then index + 128 else index

pub set_value_present_ok :
    (p : Ptr) (b : Bool)
    → p.raw < 256
    → p.raw ≢ empty_ptr_v
    → p.raw ≢ nonexistent_v
    → set_value_present p b ≡ ok (record { raw = with_flag (p.raw % 128) b })
unfolding set_value_present
set_value_present_ok p b h e n =
    ground (arith, bit_and_top p.raw h, bit_and_low p.raw h, bit_or_top p.raw h)

pub of_offset_ok :
    (i : ℕ) (b : Bool)
    → i ≤ 120
    → of_offset (i * value_size) b ≡ ok (record { raw = with_flag i b })
unfolding of_offset
of_offset_ok i b h =
    let index : i * 2048 / 2048 % 256 ≡ i = omega arith in
    let low : i % 128 ≡ i = omega arith in
    rw index (
      ground (
        arith,
        bit_and_top i (omega arith),
        bit_and_low i (omega arith),
        bit_or_top i (omega arith),
      ))

-- A pointer made from the offset of the value of an index up to 120 has that index, that offset,
-- and the type that the flag asks for.
pub of_offset_lem :
    (i : ℕ) (b : Bool)
    → i ≤ 120
    → (p : Ptr) × (of_offset (i * value_size) b ≡ ok p)
      × (get_index p ≡ i)
      × (get_offset p ≡ i * value_size)
      × (get_type p ≡ (if b then present else deleted))
unfolding get_offset kind
of_offset_lem i b h =
    let p : Ptr = record { raw = with_flag i b } in
    let small : p.raw < 256 = ground arith in
    let index : get_index p ≡ i = ground (arith, get_index_lem p small) in
    (p, of_offset_ok i b h, index, ground (arith, index), ground (arith, get_type_lem p small))

-- `setValuePresent` on a pointer to a present or deleted value whose index is up to 120 succeeds,
-- keeps the index, and makes the type the one that the flag asks for.
pub set_value_present_lem :
    (p : Ptr) (b : Bool)
    → p.raw < 256
    → get_index p ≤ 120
    → (q : Ptr) × (set_value_present p b ≡ ok q)
      × (get_index q ≡ get_index p)
      × (get_type q ≡ (if b then present else deleted))
unfolding kind
set_value_present_lem p b h le =
    let index = get_index_lem p h in
    let i = p.raw % 128 in
    let q : Ptr = record { raw = with_flag i b } in
    let small : q.raw < 256 = ground arith in
    (
      q,
      set_value_present_ok p b h (omega arith) (omega arith),
      ground (arith, get_index_lem q small, index),
      ground (arith, get_type_lem q small),
    )
