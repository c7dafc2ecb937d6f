-- ===== src/Analog/Ideal.antt =====
-- What exact numbers satisfy and `f64` up to rounding, signed zeros, infinities and NaN.
use piperine.Common.{◌≡◌, true, false, [], ◌∷◌}
use piperine.Analog.Bits.{Bits, sign_bit, bits_one, neg_bits}
use piperine.Analog.Operators.{Builtin}
use piperine.Analog.Machine.{Arithmetic, nought}

pub record Ideal (A : Arithmetic) : Type 0 where
  pub minus_zero : A.value sign_bit ≡ nought A
  pub neg_value : (v : Bits) → A.value (neg_bits v) ≡ A.fneg (A.value v)
  pub zero_add : (x : A.Carrier) → A.fadd (nought A) x ≡ x
  pub add_zero : (x : A.Carrier) → A.fadd x (nought A) ≡ x
  pub sub_zero : (x : A.Carrier) → A.fsub x (nought A) ≡ x
  pub zero_mul : (x : A.Carrier) → A.fmul (nought A) x ≡ nought A
  pub mul_zero : (x : A.Carrier) → A.fmul x (nought A) ≡ nought A
  pub one_mul : (x : A.Carrier) → A.fmul (A.value bits_one) x ≡ x
  pub mul_one : (x : A.Carrier) → A.fmul x (A.value bits_one) ≡ x
  pub zero_div : (x : A.Carrier) → A.fdiv (nought A) x ≡ nought A
  pub div_one : (x : A.Carrier) → A.fdiv x (A.value bits_one) ≡ x
  pub zero_feq : A.feq (nought A) (nought A) ≡ true
  pub one_feq : A.feq (A.value bits_one) (nought A) ≡ false
  -- u^v · (v · d / u) is v · u^(v-1) · d
  pub power :
      (u v d : A.Carrier)
      → A.feq u (nought A) ≡ false
      → A.fmul (A.native Builtin.pow (u ∷ v ∷ [])) (A.fdiv (A.fmul v d) u)
        ≡ A.fmul (A.fmul v (A.native Builtin.pow (u ∷ A.fsub v (A.value bits_one) ∷ []))) d
