-- ===== src/Analog/Constructors.antt =====
-- The constant-folding constructors and the rules of single functions of
-- piperine-codegen/src/resolve/diff.rs.
use piperine.Common.{Bool, false, ◌||◌, Option, none, some, if◌then◌else◌}
use piperine.Analog.Bits.{
  Bits, bits_zero, bits_one, bits_minus_one, bits_two, bits_ln_10, is_zero_bits, is_one_bits,
  neg_bits,
}
use piperine.Analog.Ast.{
  real, UnaryOp, BinaryOp, Expr, literal, ident, unary, binary, call, if_expr, no_exprs, exprs,
  just_expr, Block, body, no_stmts,
}
use piperine.Analog.Operators.{BinOp, from_pom, to_pom, Builtin, spelling}

-- The constant-folding constructors.
abbrev pub lit : Bits → Expr
lit v = literal (real v)

unfoldable pub real_literal : Expr → Option Bits
real_literal (literal (real v)) = some v
real_literal _ = none

unfoldable pub is_zero : Expr → Bool
is_zero e = elim (real_literal e) [ some v ↦ is_zero_bits v | none ↦ false ]

unfoldable pub is_one : Expr → Bool
is_one e = elim (real_literal e) [ some v ↦ is_one_bits v | none ↦ false ]

unfoldable pub binary_of : BinOp → Expr → Expr → Expr
binary_of op lhs rhs = binary lhs (to_pom op) rhs

unfoldable pub add : Expr → Expr → Expr
add a b = if is_zero a then b else if is_zero b then a else binary_of BinOp.add a b

unfoldable pub sub : Expr → Expr → Expr
sub a b = if is_zero b then a else binary_of BinOp.sub a b

unfoldable pub mul : Expr → Expr → Expr
mul a b =
    if is_zero a || is_zero b
    then lit bits_zero
    else if is_one a
    then b
    else if is_one b
    then a
    else binary_of BinOp.mul a b

unfoldable pub div : Expr → Expr → Expr
div a b = if is_zero a then lit bits_zero else if is_one b then a else binary_of BinOp.div a b

unfoldable pub neg : Expr → Expr
neg a = elim (real_literal a) [ some v ↦ lit (neg_bits v) | none ↦ unary UnaryOp.negate a ]

unfoldable pub math1 : Builtin → Expr → Expr
math1 f a = call (ident (spelling f)) (exprs a no_exprs)

unfoldable pub block_of : Expr → Block
block_of e = body no_stmts (just_expr e)

-- The expression `Pow(u, v)` and its derivative by `d_via_pow`.
unfoldable pub unpack_pow : Expr → Expr × Expr
unpack_pow (binary lhs BinaryOp.bit_xor rhs) = (lhs, rhs)
unpack_pow e = (e, lit bits_one)

unfoldable pub pow_rule : Expr → Expr → Expr → Expr → Expr
pow_rule u v du dv =
    if is_zero dv
    then mul (mul v (binary_of BinOp.pow u (sub v (lit bits_one)))) du
    else mul (binary_of BinOp.pow u v) (add (mul dv (math1 Builtin.ln u)) (div (mul v du) u))

unfoldable pub d_via_pow : Expr → Expr → Expr → Expr
d_via_pow self du dv = let (u, v) = unpack_pow self in pow_rule u v du dv

-- `_ => { from_pom(op) ... }` of `d_binary`, for the operators that it does not name.
unfoldable pub d_other : BinOp → Expr → Expr → Expr → Expr → Expr
d_other BinOp.pow a b da db = pow_rule a b da db
d_other _ a b da db = lit bits_zero

unfoldable pub d_binary : BinaryOp → Expr → Expr → Expr → Expr → Expr
d_binary BinaryOp.add a b da db = add da db
d_binary BinaryOp.sub a b da db = sub da db
d_binary BinaryOp.mul a b da db = add (mul da b) (mul a db)
d_binary BinaryOp.div a b da db = div (sub (mul da b) (mul a db)) (mul b b)
d_binary BinaryOp.and a b da db = lit bits_zero
d_binary BinaryOp.or a b da db = lit bits_zero
d_binary op a b da db = d_other (from_pom op) a b da db

-- A function of one operand `u` whose derivative is `du`.
unfoldable pub d_math1 : Builtin → Expr → Expr → Expr
d_math1 Builtin.exp u du = mul (math1 Builtin.exp u) du
d_math1 Builtin.limexp u du = mul (math1 Builtin.limexp u) du
d_math1 Builtin.ln u du = div du u
d_math1 Builtin.log10 u du = div du (mul u (lit bits_ln_10))
d_math1 Builtin.sqrt u du = div du (mul (lit bits_two) (math1 Builtin.sqrt u))
d_math1 Builtin.sin u du = mul (math1 Builtin.cos u) du
d_math1 Builtin.cos u du = mul (neg (math1 Builtin.sin u)) du
d_math1 Builtin.tan u du = div du (mul (math1 Builtin.cos u) (math1 Builtin.cos u))
d_math1 Builtin.asin u du = div du (math1 Builtin.sqrt (sub (lit bits_one) (mul u u)))
d_math1 Builtin.acos u du = div (neg du) (math1 Builtin.sqrt (sub (lit bits_one) (mul u u)))
d_math1 Builtin.atan u du = div du (add (lit bits_one) (mul u u))
d_math1 Builtin.sinh u du = mul (math1 Builtin.cosh u) du
d_math1 Builtin.cosh u du = mul (math1 Builtin.sinh u) du
d_math1 Builtin.tanh u du =
    mul (sub (lit bits_one) (mul (math1 Builtin.tanh u) (math1 Builtin.tanh u))) du
d_math1 Builtin.abs u du =
    mul
      (if_expr (binary_of BinOp.ge u (lit bits_zero)) (block_of (lit bits_one))
        (block_of (lit bits_minus_one)))
      du
d_math1 _ u du = lit bits_zero

unfoldable pub pick : BinOp → Expr → Expr → Expr → Expr → Expr
pick op u v du dv = if_expr (binary_of op u v) (block_of du) (block_of dv)
