-- ===== src/Analog/Powers.antt =====
-- What becomes of a power under differentiation. The code generator writes a power as `^`, which
-- from_pom reads back as a bitwise operator.
use piperine.Common.{
  ◌≡◌, refl, sym, ◌&&◌, inl, inr, false, Option, [], ◌∷◌, Text, codes, text_eq, starts_with,
  Bool-cases, Option-cases, ◌==◌,
}
use piperine.Analog.Bits.{Bits, bits_zero, bits_one, is_zero_bits, is_one_bits}
use piperine.Analog.Ast.{BinaryOp, Expr, ident, binary, call, Exprs, no_exprs, exprs}
use piperine.Analog.Operators.{Builtin, math_fn, find_spelled}
use piperine.Analog.Constructors.{
  lit, real_literal, is_zero, is_one, binary_of, add, sub, mul, d_binary, d_other, d_via_pow,
  unpack_pow, pow_rule,
}
use piperine.Analog.Diff.{
  Node, Tapes, rule_of, chain_rule, is_access, find_tape, d_math, d_call, node_or_ground, nth_expr,
  unwrap_or, differentiate,
}
use piperine.Analog.Diff.Passes.{branch_seed, d_dv_twice, d_dv_twice_named}
use piperine.Analog.Machine.{Arithmetic, Frame, and_then, call_math}
use piperine.Analog.Emit.{
  emit_analog, emit_args, emit_call, emit_binary, collect, callee_of, is_tape_marker, trim_ds,
}

abbrev pub power_of : Expr → Expr → Expr
power_of x y = call (ident (codes "pow")) (exprs x (exprs y no_exprs))

emit_power :
    {A : Arithmetic} (F : Frame A) (x y : Expr)
    → emit_analog A F (power_of x y)
      ≡ and_then
          (emit_analog A F x)
          (λ u. and_then (emit_analog A F y) (λ v. call_math A Builtin.pow (u ∷ v ∷ [])))
unfolding emit_analog emit_args emit_call collect and_then callee_of is_access text_eq
    is_tape_marker starts_with trim_ds math_fn find_spelled
emit_power {A} F x y = elim (Option-cases (emit_analog A F x)) [
  | inl n ↦ rw n refl
  | inr (u, h) ↦ elim (Option-cases (emit_analog A F y)) [
    | inl n ↦ rw (h, n) refl
    | inr (v, k) ↦ rw (h, k) refl
  ]
]

-- `x ^ y` is emitted with the value of `pow(x, y)`, an error included, and its derivative is the
-- literal 0 whatever `x` and `y` are.
pub caret_frozen :
    {A : Arithmetic} (F : Frame A) (seed : Node → Node → Expr) (resolve_node : Text → Option Node)
    (tapes : Tapes) (x y : Expr)
    → (emit_analog A F (binary x BinaryOp.bit_xor y) ≡ emit_analog A F (power_of x y))
      × (differentiate seed resolve_node tapes (binary x BinaryOp.bit_xor y) ≡ lit bits_zero)
unfolding emit_analog emit_binary differentiate d_binary d_other
caret_frozen F seed resolve_node tapes x y = (sym (emit_power F x y), refl)

module _ (c : Bits) where
  -- x ^ (c - 1.0)
  abbrev lowered : Expr → Expr
  lowered x = binary x BinaryOp.bit_xor (binary (lit c) BinaryOp.sub (lit bits_one))

  -- The first derivative of `x ^ c` is one of these.
  data FirstPass (x : Expr) : Expr → Type 0 where
    nothing : FirstPass x (lit bits_zero)
    bare : FirstPass x (lowered x)
    scaled : is_zero_bits c ≡ false → FirstPass x (binary (lit c) BinaryOp.mul (lowered x))

  scaled_power : (x : Expr) → FirstPass x (mul (lit c) (lowered x))
  unfolding mul is_zero is_one real_literal binary_of
  scaled_power x = elim (Bool-cases (is_zero_bits c)) [
    | inl z ↦ rw z FirstPass.nothing
    | inr n ↦ elim (Bool-cases (is_one_bits c)) [
      | inl o ↦ rw (n, o) FirstPass.bare
      | inr m ↦ rw (n, m) (FirstPass.scaled n)
    ]
  ]

  times_one : {x e : Expr} → FirstPass x e → FirstPass x (mul e (lit bits_one))
  unfolding mul is_zero is_one real_literal
  times_one FirstPass.nothing = FirstPass.nothing
  times_one FirstPass.bare = FirstPass.bare
  times_one (FirstPass.scaled n) = FirstPass.scaled n

  times_zero : {x e : Expr} → FirstPass x e → FirstPass x (mul e (lit bits_zero))
  unfolding mul is_zero is_one real_literal
  times_zero FirstPass.nothing = FirstPass.nothing
  times_zero FirstPass.bare = FirstPass.nothing
  times_zero (FirstPass.scaled n) = FirstPass.nothing

  times_seed :
      {x e : Expr} (plus minus p m : Node)
      → FirstPass x e
      → FirstPass x (mul e (branch_seed plus minus p m))
  unfolding branch_seed
  times_seed plus minus p m f = elim (Bool-cases (p == plus && m == minus)) [
    | inl h ↦ rw h (times_one f)
    | inr h ↦ rw h (times_zero f)
  ]

  module _ (seed : Node → Node → Expr) (resolve_node : Text → Option Node) (tapes : Tapes) where
    second_pass :
        {x e : Expr} → FirstPass x e → differentiate seed resolve_node tapes e ≡ lit bits_zero
    unfolding differentiate d_binary d_other add mul is_zero is_one real_literal
    second_pass FirstPass.nothing = refl
    second_pass FirstPass.bare = refl
    second_pass (FirstPass.scaled n) = rw n refl

  voltage : Exprs → Expr
  voltage args = call (ident (codes "V")) args

  first_pass :
      (resolve_node : Text → Option Node) (args : Exprs) (plus minus : Node)
      → differentiate
          (branch_seed plus minus)
          resolve_node
          ((codes "__temp", codes "__dtemp_inner") ∷ [])
          (power_of (voltage args) (lit c))
        ≡ mul (mul (lit c) (lowered (voltage args))) (
            branch_seed plus minus
              (node_or_ground resolve_node (nth_expr args 0))
              (node_or_ground resolve_node (nth_expr args 1)))
  unfolding voltage differentiate d_call rule_of chain_rule is_access text_eq find_tape starts_with
      math_fn find_spelled d_math nth_expr unwrap_or d_via_pow unpack_pow pow_rule binary_of sub
      is_zero real_literal
  first_pass resolve_node args plus minus = refl

-- The second derivative of `pow(V(a, b), c)`, by any two branches and for every literal `c`, is the
-- literal 0, where c * (c - 1) * V(a, b) ^ (c - 2) is the derivative by V(a, b) twice.
pub pow_twice_vanishes :
    (resolve_node : Text → Option Node) (args : Exprs) (c : Bits) (a b p q : Node)
    → d_dv_twice resolve_node (power_of (call (ident (codes "V")) args) (lit c)) a b p q
      ≡ lit bits_zero
unfolding d_dv_twice d_dv_twice_named voltage
pow_twice_vanishes resolve_node args c a b p q = rw (first_pass c resolve_node args a b) (
    second_pass c (branch_seed p q) resolve_node
      ((codes "__temp", codes "__dtemp") ∷ (codes "__dtemp_inner", codes "__ddtemp") ∷ [])
      (times_seed c a b _ _ (scaled_power c (voltage c args))))
