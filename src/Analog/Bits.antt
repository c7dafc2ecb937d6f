-- ===== src/Analog/Bits.antt =====
-- The bit patterns of the `f64` literals that an expression carries.
use piperine.Common.{ℕ, ◌+◌, ◌-◌, Bool, if◌then◌else◌, ltb, ◌==◌, ◌||◌}

abbrev pub Bits : Type 0
Bits = ℕ

abbrev pub sign_bit : ℕ
sign_bit = 0x8000000000000000

-- 0.0, -0.0, 1.0, -1.0, 2.0 and LN_10
abbrev pub bits_zero : Bits
bits_zero = 0

abbrev pub bits_one : Bits
bits_one = 0x3FF0000000000000

abbrev pub bits_minus_one : Bits
bits_minus_one = 0xBFF0000000000000

abbrev pub bits_two : Bits
bits_two = 0x4000000000000000

abbrev pub bits_ln_10 : Bits
bits_ln_10 = 0x40026BB1BBB55516

-- `v == 0.0` holds of both zeros; `v == 1.0` of one pattern.
abbrev pub is_zero_bits : Bits → Bool
is_zero_bits v = v == bits_zero || v == sign_bit

abbrev pub is_one_bits : Bits → Bool
is_one_bits v = v == bits_one

-- `-v` flips the sign.
unfoldable pub neg_bits : Bits → Bits
neg_bits v = if ltb v sign_bit then v + sign_bit else v - sign_bit
