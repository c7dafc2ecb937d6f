-- ===== src/Analog/Diff.antt =====
-- Symbolic differentiation: piperine-codegen/src/resolve/diff.rs.
pub mod Passes
use piperine.Common.{
  ℕ, zero, suc, Bool, true, false, ◌&&◌, ◌||◌, Option, none, some, List, [], ◌∷◌, ◌++◌, ◌==◌, Text,
  codes, text_eq, starts_with, if◌then◌else◌, get_elem?,
}
use piperine.Analog.Bits.{
  Bits, bits_zero, bits_one, bits_minus_one, bits_two, bits_ln_10, is_zero_bits, is_one_bits,
  neg_bits,
}
use piperine.Analog.Ast.{
  Literal, real, int, bool, quad, string, absent, UnaryOp, BinaryOp, PathRef, Expr, literal,
  sys_call, ident, path_expr, unary, binary, call, cast, index, slice, field, block, if_expr, array,
  tuple, bundle_lit, map_lit, set_lit, lambda, Exprs, no_exprs, exprs, no_expr, just_expr, Block,
  body, Stmt, expr_stmt, Stmts, no_stmts, stmts,
}
use piperine.Analog.Operators.{BinOp, from_pom, to_pom, Builtin, spelling, math_fn}
use piperine.Analog.Constructors.{
  lit, real_literal, is_zero, is_one, binary_of, add, sub, mul, div, neg, math1, block_of,
  unpack_pow, pow_rule, d_via_pow, d_other, d_binary, d_math1, pick,
}

-- NodeId, with GROUND = 0
abbrev pub Node : Type 0
Node = ℕ

abbrev pub ground_node : Node
ground_node = 0

-- The operands and their derivatives, absent ones with the defaults of the code.
unfoldable pub nth_expr : Exprs → ℕ → Option Expr
nth_expr no_exprs i = none
nth_expr (exprs e es) zero = some e
nth_expr (exprs e es) (suc i) = nth_expr es i

unfoldable pub unwrap_or {ℓ} : {A : Type ℓ} → Option A → A → A
unwrap_or (some a) d = a
unwrap_or none d = d

abbrev pub or_lit : Option Expr → Bits → Expr
or_lit o v = unwrap_or o (lit v)

unfoldable pub d_math : Builtin → Exprs → List Expr → Expr
d_math f args dargs =
    let u = or_lit (nth_expr args 0) bits_zero in
    let du = or_lit (get_elem? dargs 0) bits_zero in
    let dv = or_lit (get_elem? dargs 1) bits_zero in
    elim f [
      | Builtin.pow ↦ d_via_pow (binary_of BinOp.pow u (or_lit (nth_expr args 1) bits_one)) du dv
      | Builtin.min ↦ pick BinOp.le u (or_lit (nth_expr args 1) bits_zero) du dv
      | Builtin.max ↦ pick BinOp.ge u (or_lit (nth_expr args 1) bits_zero) du dv
      | g ↦ d_math1 g u du
    ]

unfoldable pub ident_str : Option Expr → Option Text
ident_str (some (ident s)) = some s
ident_str (some (field (ident base) name)) = some (base ++ codes "." ++ name)
ident_str _ = none

unfoldable pub trim_dollars : Text → Text
trim_dollars [] = []
trim_dollars (c ∷ cs) = if c == b'$' then trim_dollars cs else c ∷ cs

unfoldable pub is_limit : Text → Bool
is_limit name = text_eq (trim_dollars name) (codes "limit")

unfoldable pub is_access : Text → Bool
is_access name = text_eq name (codes "V") || text_eq name (codes "I")

abbrev pub Tapes : Type 0
Tapes = List (Text × Text)

unfoldable pub find_tape : Tapes → Text → Option Text
find_tape [] name = none
find_tape ((leaf, deriv) ∷ rest) name =
    if text_eq name leaf then some deriv else find_tape rest name

-- The branch that a call takes, by the callee's name.
pub data Rule : Type 0 where
  seeded frozen unknown : Rule
  taped : Text → Rule
  chained : Builtin → Rule

unfoldable pub chain_rule : Text → Rule
chain_rule name =
    if starts_with name (codes "__")
    then Rule.frozen
    else elim (math_fn name) [ some f ↦ Rule.chained f | none ↦ Rule.unknown ]

unfoldable pub rule_of : Tapes → Text → Rule
rule_of tapes name =
    if is_access name
    then Rule.seeded
    else elim (find_tape tapes name) [ some deriv ↦ Rule.taped deriv | none ↦ chain_rule name ]

unfoldable pub d_tape : Text → Option Expr → Expr
d_tape deriv (some (literal (int id))) = call (ident deriv) (exprs (literal (int id)) no_exprs)
d_tape deriv _ = lit bits_zero

unfoldable pub node_or_ground : (Text → Option Node) → Option Expr → Node
node_or_ground resolve_node arg =
    unwrap_or (resolve_node (unwrap_or (ident_str arg) (codes "0"))) ground_node

module _ (seed : Node → Node → Expr) (resolve_node : Text → Option Node) (tapes : Tapes) where
  unfoldable pub d_call : Text → Exprs → List Expr → Expr
  d_call name args dargs = elim (rule_of tapes name) [
    | Rule.seeded ↦
        seed (node_or_ground resolve_node (nth_expr args 0))
          (node_or_ground resolve_node (nth_expr args 1))
    | Rule.taped deriv ↦ d_tape deriv (nth_expr args 0)
    | Rule.frozen ↦ lit bits_zero
    | Rule.chained f ↦ d_math f args dargs
    | Rule.unknown ↦ lit bits_zero
  ]

  -- `d_stmts` is the derivative of the last expression among the statements.
  unfoldable mutual
    pub differentiate : Expr → Expr
    differentiate (sys_call name args) =
        let dargs = d_args args in
        if is_limit name then or_lit (get_elem? dargs 1) bits_zero else lit bits_zero
    differentiate (call (ident name) args) = let dargs = d_args args in d_call name args dargs
    differentiate (unary UnaryOp.negate x) = neg (differentiate x)
    differentiate (unary UnaryOp.complement x) = lit bits_zero
    differentiate (binary lhs op rhs) = d_binary op lhs rhs (differentiate lhs) (differentiate rhs)
    differentiate (if_expr c then_body else_body) =
        if_expr c (block_of (block_deriv then_body)) (block_of (block_deriv else_body))
    differentiate (block b) = block_deriv b
    differentiate (cast name e) = differentiate e
    differentiate _ = lit bits_zero

    pub d_args : Exprs → List Expr
    d_args no_exprs = []
    d_args (exprs e es) = differentiate e ∷ d_args es

    pub block_deriv : Block → Expr
    block_deriv (body ss (just_expr e)) = differentiate e
    block_deriv (body ss no_expr) = or_lit (d_stmts ss) bits_zero

    pub d_stmts : Stmts → Option Expr
    d_stmts no_stmts = none
    d_stmts (stmts s ss) = elim (d_stmts ss) [ some d ↦ some d | none ↦ d_stmt s ]

    pub d_stmt : Stmt → Option Expr
    d_stmt (expr_stmt e) = some (differentiate e)
    d_stmt _ = none
