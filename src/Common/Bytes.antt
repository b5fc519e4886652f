-- ===== src/Common/Bytes.antt =====
-- Facts about every byte, by evaluation.
use Prim.Native.Nat.{ℕ, zero, suc, ◌+◌, ◌*◌, ◌/◌, ◌%◌, ◌<◌, bit_and, bit_or}
use mathlib.Core.Path.{◌≡◌, refl}
use mathlib.Core.Bool.{Bool, true, false}
use native.Mathlib.Decide.{ℕ_discrete}
use native.Mathlib.Omega.{arith}
use kvs_cash_machine.Common.Tests.{◌==◌, ==_iff, if◌then◌else◌}

-- Every number under the bound passes the test.
passes : (ℕ → Bool) → ℕ → Bool
passes test zero = true
passes test (suc bound) = if test bound then passes test bound else false

passes_at : (test : ℕ → Bool) (bound i : ℕ) → i < bound → passes test bound ≡ true → test i ≡ true
unfolding passes
passes_at test zero i small h = absurd (omega arith)
passes_at test (suc bound) i small h = elim (ℕ_discrete i bound) [
  | yes last ↦ rw last (ground arith)
  | no other ↦ passes_at test bound i (omega arith) (ground arith)
]

low_bits : passes (λ raw. bit_and raw 0xffff_ff7f == raw % 128) 256 ≡ true
unfolding passes
low_bits = refl

top_bit_set : passes (λ raw. bit_or raw 0x80 == raw % 128 + 128) 256 ≡ true
unfolding passes
top_bit_set = refl

top_bit : passes (λ raw. bit_and raw 0x80 == raw / 128 * 128) 256 ≡ true
unfolding passes
top_bit = refl

-- Clearing the top bit of a byte, setting it, and reading it.
pub bit_and_low : (x : ℕ) → x < 256 → bit_and x 0xffff_ff7f ≡ x % 128
bit_and_low x h = (==_iff _ _).0 (passes_at _ 256 x h low_bits)

pub bit_or_top : (x : ℕ) → x < 256 → bit_or x 0x80 ≡ x % 128 + 128
bit_or_top x h = (==_iff _ _).0 (passes_at _ 256 x h top_bit_set)

pub bit_and_top : (x : ℕ) → x < 256 → bit_and x 0x80 ≡ x / 128 * 128
bit_and_top x h = (==_iff _ _).0 (passes_at _ 256 x h top_bit)
