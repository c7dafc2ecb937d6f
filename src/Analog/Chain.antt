-- ===== src/Analog/Chain.antt =====
-- The chain rules of diff.rs compute the derivatives of the functions.
use piperine.Common.{
  ◌≡◌, ◌≢◌, refl, sym, ap, ◌∙◌, inl, inr, Bool, true, false, none, some, text_eq, starts_with,
  if◌then◌else◌, Bool-cases, Text,
}
use piperine.Analog.Bits.{Bits, bits_zero, bits_one, bits_minus_one, bits_two, bits_ln_10}
use piperine.Analog.Ast.{Expr, Exprs, ident, call, no_exprs, exprs, if_expr}
use piperine.Analog.Operators.{BinOp, Builtin, spelling, arity, math_fn, find_spelled}
use piperine.Analog.Constructors.{
  lit, is_zero, binary_of, sub, mul, math1, block_of, pow_rule, d_math1,
}
use piperine.Analog.Diff.{is_access}
use piperine.Analog.Machine.{Arithmetic, Frame, and_then, call_math, is_truthy, bool_to_f64, nought}
use piperine.Analog.Ideal.{Ideal}
use piperine.Analog.Emit.{
  emit_analog, emit_literal, emit_binary, emit_block, emit_args, emit_call, callee_of, Callee,
  collect, is_tape_marker, trim_ds,
}
use piperine.Analog.Folding.{
  emit-add, emit-sub, emit-mul, emit-div, emit-neg, emit-zero, emit-binary_of, is_zero-value,
}
use piperine.Analog.Derivative.{tangent, power_tangent, apply1, apply2}

-- A function's own spelling calls it.
pub callee_of-spelling : (f : Builtin) → callee_of (spelling f) ≡ Callee.math_call f
unfolding callee_of is_access text_eq is_tape_marker starts_with trim_ds math_fn find_spelled
callee_of-spelling Builtin.sin = refl
callee_of-spelling Builtin.cos = refl
callee_of-spelling Builtin.tan = refl
callee_of-spelling Builtin.asin = refl
callee_of-spelling Builtin.acos = refl
callee_of-spelling Builtin.atan = refl
callee_of-spelling Builtin.atan2 = refl
callee_of-spelling Builtin.sinh = refl
callee_of-spelling Builtin.cosh = refl
callee_of-spelling Builtin.tanh = refl
callee_of-spelling Builtin.asinh = refl
callee_of-spelling Builtin.acosh = refl
callee_of-spelling Builtin.atanh = refl
callee_of-spelling Builtin.exp = refl
callee_of-spelling Builtin.limexp = refl
callee_of-spelling Builtin.ln = refl
callee_of-spelling Builtin.log10 = refl
callee_of-spelling Builtin.sqrt = refl
callee_of-spelling Builtin.pow = refl
callee_of-spelling Builtin.hypot = refl
callee_of-spelling Builtin.abs = refl
callee_of-spelling Builtin.min = refl
callee_of-spelling Builtin.max = refl
callee_of-spelling Builtin.floor = refl
callee_of-spelling Builtin.ceil = refl

none-some {ℓ} : {A : Type ℓ} {a : A} → none ≢ some a
none-some h = cc

module _ {A : Arithmetic} (I : Ideal A) (F : Frame A) where
  pub emit-called :
      (name : Text) {f : Builtin} (args : Exprs)
      → callee_of name ≡ Callee.math_call f
      → emit_analog A F (call (ident name) args)
        ≡ and_then (collect (emit_args A F args)) (λ vs. call_math A f vs)
  unfolding emit_analog emit_call
  emit-called name args c = rw (c, emit_call) refl

  emit-math1 :
      (f : Builtin) (a : Expr) {x : A.Carrier}
      → arity f ≡ 1
      → emit_analog A F a ≡ some x
      → emit_analog A F (math1 f a) ≡ some (apply1 A f x)
  unfolding math1 emit_args collect and_then call_math
  emit-math1 f a h p =
      emit-called (spelling f) (exprs a no_exprs) (callee_of-spelling f) ∙ rw (p, h) refl

  emit-value : (w : Bits) → emit_analog A F (lit w) ≡ some (A.value w)
  unfolding emit_analog emit_literal
  emit-value w = refl

  truthy-bool_to_f64 : (b : Bool) → is_truthy A (bool_to_f64 A b) ≡ b
  unfolding is_truthy bool_to_f64
  truthy-bool_to_f64 true = rw I.one_feq refl
  truthy-bool_to_f64 false = rw I.zero_feq refl

  -- A conditional on a comparison picks one of the two.
  pub emit-choose :
      (c d e : Expr) (b : Bool) {x y : A.Carrier}
      → emit_analog A F c ≡ some (bool_to_f64 A b)
      → emit_analog A F d ≡ some x
      → emit_analog A F e ≡ some y
      → emit_analog A F (if_expr c (block_of d) (block_of e)) ≡ some (if b then x else y)
  unfolding emit_analog emit_block block_of and_then
  emit-choose c d e b p q r = rw (p, q, r) (rw (truthy-bool_to_f64 b) refl)

  emit-sign :
      (a : Expr) {x : A.Carrier}
      → emit_analog A F a ≡ some x
      → emit_analog A F (
          if_expr
            (binary_of BinOp.ge a (lit bits_zero))
            (block_of (lit bits_one))
            (block_of (lit bits_minus_one)))
        ≡ some (if A.fle (nought A) x then A.value bits_one else A.value bits_minus_one)
  unfolding emit_binary
  emit-sign a p =
      emit-choose (binary_of BinOp.ge a (lit bits_zero)) (lit bits_one) (lit bits_minus_one) _
        (emit-binary_of I F BinOp.ge a (lit bits_zero) p (emit-zero I F)) (emit-value bits_one)
        (emit-value bits_minus_one)

  -- one minus or plus a product
  emit-square :
      (a : Expr) {x : A.Carrier}
      → emit_analog A F a ≡ some x
      → emit_analog A F (sub (lit bits_one) (mul a a))
        ≡ some (A.fsub (A.value bits_one) (A.fmul x x))
  emit-square a p =
      emit-sub I F (lit bits_one) (mul a a) (emit-value bits_one) (emit-mul I F a a p p)

  limexp_below :
      {x dx t : A.Carrier}
      → tangent A Builtin.limexp x dx ≡ some t
      → some (A.fmul (apply1 A Builtin.limexp x) dx) ≡ some t
  unfolding tangent
  limexp_below {x} h = elim (Bool-cases (A.fle x (A.of_int 80))) [
    | inl c ↦ rw (c, tangent) at h
    | inr c ↦ absurd (none-some (rw (c, tangent) at h))
  ]

  pub emit-d_math1 :
      (f : Builtin) (u du : Expr) {x dx t : A.Carrier}
      → tangent A f x dx ≡ some t
      → emit_analog A F u ≡ some x
      → emit_analog A F du ≡ some dx
      → emit_analog A F (d_math1 f u du) ≡ some t
  unfolding tangent d_math1
  emit-d_math1 Builtin.exp u du h p q = emit-mul I F _ du (emit-math1 Builtin.exp u refl p) q ∙ h
  emit-d_math1 Builtin.limexp u du h p q =
      let below = limexp_below h in emit-mul I F _ du (emit-math1 Builtin.limexp u refl p) q ∙ below
  emit-d_math1 Builtin.ln u du h p q = emit-div I F du u q p ∙ h
  emit-d_math1 Builtin.log10 u du h p q =
      emit-div I F du _ q (emit-mul I F u (lit bits_ln_10) p (emit-value bits_ln_10)) ∙ h
  emit-d_math1 Builtin.sqrt u du h p q =
      emit-div I F du _ q
        (emit-mul I F (lit bits_two) _ (emit-value bits_two) (emit-math1 Builtin.sqrt u refl p))
      ∙ h
  emit-d_math1 Builtin.sin u du h p q = emit-mul I F _ du (emit-math1 Builtin.cos u refl p) q ∙ h
  emit-d_math1 Builtin.cos u du h p q =
      emit-mul I F _ du (emit-neg I F _ (emit-math1 Builtin.sin u refl p)) q ∙ h
  emit-d_math1 Builtin.tan u du h p q =
      let cosine = emit-math1 Builtin.cos u refl p in
      emit-div I F du _ q (emit-mul I F _ _ cosine cosine) ∙ h
  emit-d_math1 Builtin.asin u du h p q =
      emit-div I F du _ q (emit-math1 Builtin.sqrt _ refl (emit-square u p)) ∙ h
  emit-d_math1 Builtin.acos u du h p q =
      emit-div I F _ _ (emit-neg I F du q) (emit-math1 Builtin.sqrt _ refl (emit-square u p)) ∙ h
  emit-d_math1 Builtin.atan u du h p q =
      emit-div I F du _ q
        (emit-add I F (lit bits_one) _ (emit-value bits_one) (emit-mul I F u u p p))
      ∙ h
  emit-d_math1 Builtin.sinh u du h p q = emit-mul I F _ du (emit-math1 Builtin.cosh u refl p) q ∙ h
  emit-d_math1 Builtin.cosh u du h p q = emit-mul I F _ du (emit-math1 Builtin.sinh u refl p) q ∙ h
  emit-d_math1 Builtin.tanh u du h p q =
      emit-mul I F _ du (emit-square (math1 Builtin.tanh u) (emit-math1 Builtin.tanh u refl p)) q
      ∙ h
  emit-d_math1 Builtin.abs u du h p q = emit-mul I F _ du (emit-sign u p) q ∙ h
  emit-d_math1 Builtin.floor u du h p q = emit-zero I F ∙ h
  emit-d_math1 Builtin.ceil u du h p q = emit-zero I F ∙ h
  emit-d_math1 Builtin.atan2 u du h p q = cc
  emit-d_math1 Builtin.asinh u du h p q = cc
  emit-d_math1 Builtin.acosh u du h p q = cc
  emit-d_math1 Builtin.atanh u du h p q = cc
  emit-d_math1 Builtin.pow u du h p q = cc
  emit-d_math1 Builtin.hypot u du h p q = cc
  emit-d_math1 Builtin.min u du h p q = cc
  emit-d_math1 Builtin.max u du h p q = cc

  -- The power rule, with a constant exponent and in general.
  pub emit-pow_rule :
      (u v du dv : Expr) {x y dx dy : A.Carrier}
      → A.feq x (nought A) ≡ false
      → emit_analog A F u ≡ some x
      → emit_analog A F v ≡ some y
      → emit_analog A F du ≡ some dx
      → emit_analog A F dv ≡ some dy
      → emit_analog A F (pow_rule u v du dv) ≡ some (power_tangent A x y dx dy)
  unfolding pow_rule emit_binary call_math
  emit-pow_rule u v du dv {x} {y} {dx} {dy} n p q r t = elim (Bool-cases (is_zero dv)) [
    | inl z ↦
        let flat : dy ≡ nought A = is_zero-value I F dv dy z t in
        let less = emit-sub I F v (lit bits_one) q (emit-value bits_one) in
        let power = emit-binary_of I F BinOp.pow u (sub v (lit bits_one)) p less in
        let folded : A.fadd (A.fmul dy (apply1 A Builtin.ln x)) (A.fdiv (A.fmul y dx) x)
            ≡ A.fdiv (A.fmul y dx) x =
          rw flat (rw (I.zero_mul (apply1 A Builtin.ln x)) (I.zero_add (A.fdiv (A.fmul y dx) x))) in
        rw z (
          emit-mul I F _ du (emit-mul I F v _ q power) r
          ∙ ap some (sym (I.power x y dx n) ∙ ap (A.fmul (apply2 A Builtin.pow x y)) (sym folded)))
    | inr k ↦
        let log = emit-mul I F dv _ t (emit-math1 Builtin.ln u refl p) in
        let ratio = emit-div I F (mul v du) u (emit-mul I F v du q r) p in
        rw k (emit-mul I F _ _ (emit-binary_of I F BinOp.pow u v p q) (emit-add I F _ _ log ratio))
  ]
