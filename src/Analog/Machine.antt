-- ===== src/Analog/Machine.antt =====
-- What the emitted code runs on: the `f64` instructions and linked functions, and the data that a
-- kernel is handed. The limiters of piperine-codegen/src/emit/analog_expr.rs are written over them.
use piperine.Common.{
  ℕ, zero, suc, ◌/◌, ◌%◌, Bool, not, ◌&&◌, Option, none, some, List, [], ◌∷◌, Text, if◌then◌else◌,
  length, ◌==◌,
}
use piperine.Analog.Bits.{Bits, bits_zero, bits_one, bits_two}
use piperine.Analog.Ast.{Expr}
use piperine.Analog.Operators.{Builtin, arity}
use piperine.Analog.Diff.{Node}

pub record Arithmetic : Type 1 where
  pub Carrier : Type 0
  -- f64const, and `as f64` on an integer
  pub value : Bits → Carrier
  pub of_int : ℕ → Carrier
  pub fadd : Carrier → Carrier → Carrier
  pub fsub : Carrier → Carrier → Carrier
  pub fmul : Carrier → Carrier → Carrier
  pub fdiv : Carrier → Carrier → Carrier
  pub fneg : Carrier → Carrier
  pub fabs : Carrier → Carrier
  -- fcmp with Equal, LessThan and LessThanOrEqual
  pub feq : Carrier → Carrier → Bool
  pub flt : Carrier → Carrier → Bool
  pub fle : Carrier → Carrier → Bool
  -- the native functions of the table
  pub native : Builtin → List Carrier → Carrier

-- The fields of SimCtx that a query reads.
pub data SimField : Type 0 where
  temperature abstime mfactor gmin step tfinal srcfact : SimField

-- A Builder's resolver, banks and tables. `tape_value` holds what each tape entry evaluates to.
pub record Frame (A : Arithmetic) : Type 0 where
  pub resolve_node : Text → Option Node
  pub branch_voltages : Node → Node → Option A.Carrier
  pub param_ids : Text → Option ℕ
  pub params : List A.Carrier
  pub var_ids : Text → Option ℕ
  pub vars : ℕ → A.Carrier
  -- By the 32 bits of the byte offset.
  pub state_bank : ℕ → A.Carrier
  pub tape_value : Text → ℕ → Option A.Carrier
  pub sim : SimField → A.Carrier
  pub param_given_ids : Text → Option ℕ
  pub param_given_mask : ℕ
  pub current_analysis : ℕ
  pub limits : List Expr
  pub limit_base : ℕ

-- `(mask >> i) & 1 != 0`
unfoldable pub test_bit : ℕ → ℕ → Bool
test_bit mask zero = mask % 2 == 1
test_bit mask (suc i) = test_bit (mask / 2) i

unfoldable pub and_then {ℓ} : {A B : Type ℓ} → Option A → (A → Option B) → Option B
and_then none f = none
and_then (some a) f = f a

module _ (A : Arithmetic) where
  abbrev pub nought : A.Carrier
  nought = A.value bits_zero

  unfoldable pub bool_to_f64 : Bool → A.Carrier
  bool_to_f64 flag = if flag then A.value bits_one else A.value bits_zero

  unfoldable pub is_truthy : A.Carrier → Bool
  is_truthy v = not (A.feq v nought)

  -- An arity mismatch is an error.
  unfoldable pub call_math : Builtin → List A.Carrier → Option A.Carrier
  call_math f args = if length args == arity f then some (A.native f args) else none

  unfoldable pub emit_min : A.Carrier → A.Carrier → A.Carrier
  emit_min a b = if A.flt a b then a else b

  unfoldable pub emit_max : A.Carrier → A.Carrier → A.Carrier
  emit_max a b = if A.flt b a then a else b

  unfoldable pub emit_pnjlim : A.Carrier → A.Carrier → A.Carrier → A.Carrier → A.Carrier
  emit_pnjlim vnew vold vte vcrit =
      let dv = A.fsub vnew vold in
      let cond1 = A.flt vcrit vnew in
      let cond2 = A.flt (A.fmul (A.value bits_two) vte) (A.fabs dv) in
      let arg = A.fadd (A.value bits_one) (A.fdiv dv vte) in
      let vold_plus = A.fadd vold (A.fmul vte (A.native Builtin.ln (arg ∷ []))) in
      let posval = if A.flt nought arg then vold_plus else vcrit in
      let negval = A.fmul vte (A.native Builtin.ln (A.fdiv vnew vte ∷ [])) in
      let limited = if A.flt nought vold then posval else negval in
      if cond1 && cond2 then limited else vnew

  unfoldable pub emit_fetlim : A.Carrier → A.Carrier → A.Carrier → A.Carrier
  emit_fetlim vnew vold vto =
      let two = A.value bits_two in
      let half = A.value 0x3FE0000000000000 in
      let four = A.value 0x4010000000000000 in
      let vold_m_vto = A.fsub vold vto in
      let vtsthi = A.fadd (A.fabs (A.fmul two vold_m_vto)) two in
      let vtstlo = A.fadd (A.fabs vold_m_vto) (A.value bits_one) in
      let vtox = A.fadd vto (A.value 0x400C000000000000) in
      let delv = A.fsub vnew vold in
      let neg_delv = A.fneg delv in
      let delv_le0 = A.fle delv nought in
      let off_step = if A.flt vtstlo neg_delv then A.fsub vold vtstlo else vnew in
      let high_gooff = if A.fle vtox vnew then off_step else emit_max vnew (A.fadd vto two) in
      let high_stayon = if A.fle vtsthi delv then A.fadd vold vtsthi else vnew in
      let high_val = if delv_le0 then high_gooff else high_stayon in
      let mid_dec = emit_max vnew (A.fsub vto half) in
      let mid_inc = emit_min vnew (A.fadd vto four) in
      let mid_val = if delv_le0 then mid_dec else mid_inc in
      let on_val = if A.fle vtox vold then high_val else mid_val in
      let off_dec = if A.flt vtsthi neg_delv then A.fsub vold vtsthi else vnew in
      let vto_p05 = A.fadd vto half in
      let off_inc_lo = if A.flt vtstlo delv then A.fadd vold vtstlo else vnew in
      let off_inc = if A.fle vnew vto_p05 then off_inc_lo else vto_p05 in
      let off_val = if delv_le0 then off_dec else off_inc in
      if A.fle vto vold then on_val else off_val

  unfoldable pub emit_limvds : A.Carrier → A.Carrier → A.Carrier
  emit_limvds vnew vold =
      let c35 = A.value 0x400C000000000000 in
      let two = A.value bits_two in
      let gt = A.flt vold vnew in
      let lim1 = A.fadd (A.fmul (A.value 0x4008000000000000) vold) two in
      let hi_gt = emit_min vnew lim1 in
      let hi_le = if A.flt vnew c35 then emit_max vnew two else vnew in
      let hi_val = if gt then hi_gt else hi_le in
      let lo_gt = emit_min vnew (A.value 0x4010000000000000) in
      let lo_le = emit_max vnew (A.value 0xBFE0000000000000) in
      let lo_val = if gt then lo_gt else lo_le in if A.fle c35 vold then hi_val else lo_val
