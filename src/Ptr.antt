-- ===== src/Ptr.antt =====
-- `PtrType` and `Ptr` of include/KeyValueTypes.h and src/KeyValueTypes.cpp: one byte, whose top bit
-- says that the value is present, with two reserved values.
pub mod Laws
use Prim.Native.Nat.{bit_and, bit_or}
use kvs_cash_machine.Common.{
  ℕ, ◌*◌, ◌/◌, ◌%◌, Bool, true, false, not, ◌==◌, ◌||◌, leb, if◌then◌else◌, ◌≡◌, refl,
}
use kvs_cash_machine.Constants.{value_size}
use kvs_cash_machine.Outcome.{Result, ok, err, assertion_failed, ◌>>=◌, ◌>>◌, assert}

-- `enum class PtrType`
pub data PtrType : Type 0 where
  present deleted empty_ptr nonexistent : PtrType

-- `class Ptr`
pub record Ptr : Type 0 where
  pub raw : ℕ

abbrev pub empty_ptr_v : ℕ
empty_ptr_v = 0b0111_1111

abbrev pub nonexistent_v : ℕ
nonexistent_v = 0b0111_1110

abbrev pub control_mask : ℕ
control_mask = 0b1000_0000

-- `~CONTROL_MASK`, an `int` of 32 bits
abbrev pub not_control_mask : ℕ
not_control_mask = 0xffff_ff7f

-- `Ptr::Ptr(ptr_t)`
abbrev pub of_raw : ℕ → Ptr
of_raw raw = record { raw = raw }

-- Its two static assertions.
of_raw_lem : (bit_and empty_ptr_v control_mask ≡ 0) × (bit_and nonexistent_v control_mask ≡ 0)
of_raw_lem = (refl, refl)

-- `Ptr::getRaw`
abbrev pub get_raw : Ptr → ℕ
get_raw p = p.raw

-- `EMPTY_PTR`
abbrev pub empty : Ptr
empty = record { raw = empty_ptr_v }

-- `Ptr::operator==`
abbrev pub eq : Ptr → Ptr → Bool
eq p q = p.raw == q.raw

-- `Ptr::getIndex`
unfoldable pub get_index : Ptr → ℕ
get_index p = bit_and p.raw not_control_mask

-- `Ptr::getOffset`
unfoldable pub get_offset : Ptr → ℕ
unfolding get_index
get_offset p = get_index p * value_size

-- `Ptr::isValuePresent`
unfoldable pub is_value_present : Ptr → Bool
is_value_present p = not (bit_and p.raw control_mask == 0)

-- `Ptr::getType`
unfoldable pub get_type : Ptr → PtrType
unfolding is_value_present
get_type p =
    if p.raw == empty_ptr_v
    then empty_ptr
    else if p.raw == nonexistent_v
    then nonexistent
    else if is_value_present p
    then present
    else deleted

-- The assertion of `setValuePresent`.
unfoldable pub is_present_or_deleted : PtrType → Bool
is_present_or_deleted present = true
is_present_or_deleted deleted = true
is_present_or_deleted empty_ptr = false
is_present_or_deleted nonexistent = false

-- `Ptr::setValuePresent`
unfoldable pub set_value_present : Ptr → Bool → Result Ptr
unfolding get_type is_present_or_deleted
set_value_present p b = do
  assert (is_present_or_deleted (get_type p))
  ok (
      if b
      then record { raw = bit_or p.raw control_mask % 256 }
      else record { raw = bit_and p.raw not_control_mask % 256 })

-- `Ptr::Ptr(size_t, bool)`
unfoldable pub of_offset : ℕ → Bool → Result Ptr
unfolding set_value_present
of_offset offset b = do
  assert (offset % value_size == 0)
  let index = offset / value_size
  assert (leb index 120)
  set_value_present (record { raw = index % 256 }) b

-- `Ptr::Ptr(PtrType)`
unfoldable pub of_type : PtrType → Result Ptr
of_type empty_ptr = ok (record { raw = empty_ptr_v })
of_type nonexistent = ok (record { raw = nonexistent_v })
of_type present = err assertion_failed
of_type deleted = err assertion_failed
