-- ===== src/Analog/Structural.antt =====
-- Structural equality of expressions: piperine-codegen/src/emit/cse.rs.
use piperine.Common.{
  ℕ, ◌%◌, Bool, true, false, not, ◌&&◌, ◌||◌, List, [], ◌∷◌, Text, text_eq, ◌==◌, ltb,
}
use piperine.Analog.Bits.{Bits, sign_bit, is_zero_bits}
use piperine.Analog.Ast.{
  Literal, real, int, bool, quad, string, absent, UnaryOp, negate, complement, BinaryOp, BindOp,
  contrib, force, assign, Expr, literal, sys_call, ident, path_expr, unary, binary, call, cast,
  index, field, if_expr, Exprs, no_exprs, exprs, MaybeExpr, no_expr, just_expr, Block, body, Stmt,
  var_decl, bind, expr_stmt, Stmts, no_stmts, stmts,
}

-- `==` on `f64`: a NaN differs from itself, and the zeros are equal.
unfoldable pub is_nan_bits : Bits → Bool
is_nan_bits v = ltb 0x7FF0000000000000 (v % sign_bit)

unfoldable pub bits_eq : Bits → Bits → Bool
bits_eq x y = not (is_nan_bits x) && (x == y || (is_zero_bits x && is_zero_bits y))

unfoldable pub texts_eq : List Text → List Text → Bool
texts_eq [] [] = true
texts_eq (x ∷ xs) (y ∷ ys) = text_eq x y && texts_eq xs ys
texts_eq _ _ = false

unfoldable pub bool_eq : Bool → Bool → Bool
bool_eq true b = b
bool_eq false b = not b

unfoldable pub literal_eq : Literal → Literal → Bool
literal_eq (real x) (real y) = bits_eq x y
literal_eq (int x) (int y) = x == y
literal_eq (bool x) (bool y) = bool_eq x y
literal_eq (string x) (string y) = text_eq x y
literal_eq (quad x) (quad y) = text_eq x y
literal_eq absent absent = true
literal_eq _ _ = false

unfoldable pub unary_eq : UnaryOp → UnaryOp → Bool
unary_eq negate negate = true
unary_eq complement complement = true
unary_eq _ _ = false

unfoldable pub binary_code : BinaryOp → ℕ
binary_code BinaryOp.add = 0
binary_code BinaryOp.sub = 1
binary_code BinaryOp.mul = 2
binary_code BinaryOp.div = 3
binary_code BinaryOp.rem = 4
binary_code BinaryOp.eq = 5
binary_code BinaryOp.neq = 6
binary_code BinaryOp.lt = 7
binary_code BinaryOp.le = 8
binary_code BinaryOp.gt = 9
binary_code BinaryOp.ge = 10
binary_code BinaryOp.bit_and = 11
binary_code BinaryOp.bit_or = 12
binary_code BinaryOp.bit_xor = 13
binary_code BinaryOp.and = 14
binary_code BinaryOp.or = 15

unfoldable pub bind_eq : BindOp → BindOp → Bool
bind_eq contrib contrib = true
bind_eq force force = true
bind_eq assign assign = true
bind_eq _ _ = false

-- `exprs_eq` is the comparison of lengths and of the zipped elements.
unfoldable mutual
  pub expr_structural_eq : Expr → Expr → Bool
  expr_structural_eq (literal x) (literal y) = literal_eq x y
  expr_structural_eq (ident x) (ident y) = text_eq x y
  expr_structural_eq (path_expr x) (path_expr y) = texts_eq x.segments y.segments
  expr_structural_eq (sys_call f xs) (sys_call g ys) = text_eq f g && exprs_eq xs ys
  expr_structural_eq (call f xs) (call g ys) = expr_structural_eq f g && exprs_eq xs ys
  expr_structural_eq (unary f x) (unary g y) = unary_eq f g && expr_structural_eq x y
  expr_structural_eq (binary a f b) (binary c g d) =
      binary_code f == binary_code g && (expr_structural_eq a c && expr_structural_eq b d)
  expr_structural_eq (cast s x) (cast t y) = text_eq s t && expr_structural_eq x y
  expr_structural_eq (field x s) (field y t) = expr_structural_eq x y && text_eq s t
  expr_structural_eq (index a b) (index c d) = expr_structural_eq a c && expr_structural_eq b d
  expr_structural_eq (if_expr a b c) (if_expr d e f) =
      expr_structural_eq a d && (blocks_eq b e && blocks_eq c f)
  expr_structural_eq _ _ = false

  pub exprs_eq : Exprs → Exprs → Bool
  exprs_eq no_exprs no_exprs = true
  exprs_eq (exprs x xs) (exprs y ys) = expr_structural_eq x y && exprs_eq xs ys
  exprs_eq _ _ = false

  pub maybe_eq : MaybeExpr → MaybeExpr → Bool
  maybe_eq no_expr no_expr = true
  maybe_eq (just_expr x) (just_expr y) = expr_structural_eq x y
  maybe_eq _ _ = false

  pub blocks_eq : Block → Block → Bool
  blocks_eq (body ss x) (body ts y) = all_stmts_eq ss ts && maybe_eq x y

  pub all_stmts_eq : Stmts → Stmts → Bool
  all_stmts_eq no_stmts no_stmts = true
  all_stmts_eq (stmts s ss) (stmts t ts) = stmts_eq s t && all_stmts_eq ss ts
  all_stmts_eq _ _ = false

  pub stmts_eq : Stmt → Stmt → Bool
  stmts_eq (bind a f x) (bind b g y) =
      bind_eq f g && (expr_structural_eq a b && expr_structural_eq x y)
  stmts_eq (expr_stmt x) (expr_stmt y) = expr_structural_eq x y
  stmts_eq (var_decl m s x) (var_decl n t y) = text_eq m n && maybe_eq x y
  stmts_eq _ _ = false
