-- ===== src/Analog/Derivative.antt =====
-- The derivative that the Jacobian needs, as rules: `Derivative e v t` says that `e` has the value
-- `v` and the derivative `t` along a direction in which the branch (p, m) moves by `seed_value p m`.
-- The derivative of a limited voltage is that of the voltage, as in a Newton iteration. There are no rules
-- for asinh, acosh, atanh, atan2, hypot, `%`, `^` and the bitwise operators.
use piperine.Common.{
  ℕ, Bool, true, false, ◌≡◌, Option, none, some, [], ◌∷◌, Text, codes, if◌then◌else◌,
}
use piperine.Analog.Bits.{Bits, bits_one, bits_minus_one, bits_two, bits_ln_10}
use piperine.Analog.Ast.{
  real, int, bool, UnaryOp, BinaryOp, Expr, literal, sys_call, ident, unary, binary, call, cast,
  field, block, if_expr, Exprs, no_exprs, exprs, no_expr, just_expr, Block, body, expr_stmt, Stmts,
  no_stmts, stmts,
}
use piperine.Analog.Operators.{Builtin, spelling}
use piperine.Analog.Diff.{Node, ident_str, nth_expr, unwrap_or}
use piperine.Analog.Machine.{Arithmetic, Frame, is_truthy, nought}
use piperine.Analog.Emit.{emit_analog}

-- The functions by their names.
pub data Names : Builtin → Text → Type 0 where
  spelled : (f : Builtin) → Names f (spelling f)
  log : Names Builtin.ln (codes "log")

-- The accesses of a branch.
pub data Access : Text → Type 0 where
  by_voltage : Access (codes "V")
  by_current : Access (codes "I")

-- The queries of the simulator, whose values no branch moves.
pub data Query : Text → Type 0 where
  temperature : Query (codes "$temperature")
  abstime : Query (codes "$abstime")
  mfactor : Query (codes "$mfactor")
  vt : Query (codes "$vt")
  simparam : Query (codes "$simparam")
  param_given : Query (codes "$param_given")
  analysis : Query (codes "$analysis")

-- The expression that a block stands for.
unfoldable pub last_expr : Stmts → Option Expr
last_expr no_stmts = none
last_expr (stmts (expr_stmt e) ss) = elim (last_expr ss) [ some l ↦ some l | none ↦ some e ]
last_expr (stmts _ ss) = last_expr ss

unfoldable pub block_value : Block → Option Expr
block_value (body ss (just_expr e)) = some e
block_value (body ss no_expr) = last_expr ss

unfoldable pub all_literals : Exprs → Bool
all_literals no_exprs = true
all_literals (exprs (literal l) es) = all_literals es
all_literals _ = false

unfoldable pub is_relational : BinaryOp → Bool
is_relational BinaryOp.eq = true
is_relational BinaryOp.neq = true
is_relational BinaryOp.lt = true
is_relational BinaryOp.le = true
is_relational BinaryOp.gt = true
is_relational BinaryOp.ge = true
is_relational BinaryOp.and = true
is_relational BinaryOp.or = true
is_relational _ = false

module _ (A : Arithmetic) where
  abbrev one : A.Carrier
  one = A.value bits_one

  abbrev pub apply1 : Builtin → A.Carrier → A.Carrier
  apply1 f u = A.native f (u ∷ [])

  abbrev pub apply2 : Builtin → A.Carrier → A.Carrier → A.Carrier
  apply2 f u v = A.native f (u ∷ v ∷ [])

  -- The derivative of a function at `u`, where `u` moves by `du`. That of `limexp` is given below
  -- its clamp at 80 only, and none for the functions whose derivative the code takes for 0 though it is not.
  unfoldable pub tangent : Builtin → A.Carrier → A.Carrier → Option A.Carrier
  tangent Builtin.exp u du = some (A.fmul (apply1 Builtin.exp u) du)
  tangent Builtin.limexp u du =
      if A.fle u (A.of_int 80) then some (A.fmul (apply1 Builtin.limexp u) du) else none
  tangent Builtin.ln u du = some (A.fdiv du u)
  tangent Builtin.log10 u du = some (A.fdiv du (A.fmul u (A.value bits_ln_10)))
  tangent Builtin.sqrt u du = some (A.fdiv du (A.fmul (A.value bits_two) (apply1 Builtin.sqrt u)))
  tangent Builtin.sin u du = some (A.fmul (apply1 Builtin.cos u) du)
  tangent Builtin.cos u du = some (A.fmul (A.fneg (apply1 Builtin.sin u)) du)
  tangent Builtin.tan u du = some (A.fdiv du (A.fmul (apply1 Builtin.cos u) (apply1 Builtin.cos u)))
  tangent Builtin.asin u du = some (A.fdiv du (apply1 Builtin.sqrt (A.fsub one (A.fmul u u))))
  tangent Builtin.acos u du =
      some (A.fdiv (A.fneg du) (apply1 Builtin.sqrt (A.fsub one (A.fmul u u))))
  tangent Builtin.atan u du = some (A.fdiv du (A.fadd one (A.fmul u u)))
  tangent Builtin.sinh u du = some (A.fmul (apply1 Builtin.cosh u) du)
  tangent Builtin.cosh u du = some (A.fmul (apply1 Builtin.sinh u) du)
  tangent Builtin.tanh u du =
      some (A.fmul (A.fsub one (A.fmul (apply1 Builtin.tanh u) (apply1 Builtin.tanh u))) du)
  tangent Builtin.abs u du =
      some (A.fmul (if A.fle (nought A) u then one else A.value bits_minus_one) du)
  tangent Builtin.floor u du = some (nought A)
  tangent Builtin.ceil u du = some (nought A)
  tangent _ u du = none

  abbrev pub power_tangent : A.Carrier → A.Carrier → A.Carrier → A.Carrier → A.Carrier
  power_tangent u v du dv =
      A.fmul (apply2 Builtin.pow u v)
        (A.fadd (A.fmul dv (apply1 Builtin.ln u)) (A.fdiv (A.fmul v du) u))

module _ {A : Arithmetic} (F : Frame A) (seed_value : Node → Node → A.Carrier) (marker : Text) where
  pub data Derivative : Expr → A.Carrier → A.Carrier → Type 0 where
    d_real : (w : Bits) → Derivative (literal (real w)) (A.value w) (nought A)
    d_int : (n : ℕ) → Derivative (literal (int n)) (A.of_int n) (nought A)
    d_bool :
        {b : Bool} {v : A.Carrier}
        → emit_analog A F (literal (bool b)) ≡ some v
        → Derivative (literal (bool b)) v (nought A)
    d_ident :
        {name : Text} {v : A.Carrier}
        → emit_analog A F (ident name) ≡ some v
        → Derivative (ident name) v (nought A)
    d_field :
        {base name : Text} {v : A.Carrier}
        → emit_analog A F (field (ident base) name) ≡ some v
        → Derivative (field (ident base) name) v (nought A)
    d_query :
        {name : Text} {args : Exprs} {v : A.Carrier}
        → Query name
        → all_literals args ≡ true
        → emit_analog A F (sys_call name args) ≡ some v
        → Derivative (sys_call name args) v (nought A)
    d_limit :
        {x kind : Expr} {args : Exprs} {u v t : A.Carrier}
        → emit_analog A F (sys_call (codes "$limit") (exprs kind (exprs x args))) ≡ some v
        → Derivative x u t
        → Derivative (sys_call (codes "$limit") (exprs kind (exprs x args))) v t
    d_access :
        {name a : Text} {args : Exprs} {p m : Node} {v : A.Carrier}
        → Access name
        → ident_str (nth_expr args 0) ≡ some a
        → F.resolve_node a ≡ some p
        → F.resolve_node (unwrap_or (ident_str (nth_expr args 1)) (codes "0")) ≡ some m
        → F.branch_voltages p m ≡ some v
        → Derivative (call (ident name) args) v (seed_value p m)
    d_state :
        {args : Exprs} {v : A.Carrier}
        → emit_analog A F (call (ident (codes "__state_load")) args) ≡ some v
        → Derivative (call (ident (codes "__state_load")) args) v (nought A)
    d_taped :
        {id : ℕ} {v t : A.Carrier}
        → F.tape_value (codes "__temp") id ≡ some v
        → F.tape_value marker id ≡ some t
        → Derivative (call (ident (codes "__temp")) (exprs (literal (int id)) no_exprs)) v t
    d_neg :
        {x : Expr} {u du : A.Carrier}
        → Derivative x u du
        → Derivative (unary UnaryOp.negate x) (A.fneg u) (A.fneg du)
    d_not :
        {x : Expr} {v : A.Carrier}
        → emit_analog A F (unary UnaryOp.complement x) ≡ some v
        → Derivative (unary UnaryOp.complement x) v (nought A)
    d_add :
        {x y : Expr} {u v du dv : A.Carrier}
        → Derivative x u du
        → Derivative y v dv
        → Derivative (binary x BinaryOp.add y) (A.fadd u v) (A.fadd du dv)
    d_sub :
        {x y : Expr} {u v du dv : A.Carrier}
        → Derivative x u du
        → Derivative y v dv
        → Derivative (binary x BinaryOp.sub y) (A.fsub u v) (A.fsub du dv)
    d_mul :
        {x y : Expr} {u v du dv : A.Carrier}
        → Derivative x u du
        → Derivative y v dv
        → Derivative (binary x BinaryOp.mul y) (A.fmul u v) (A.fadd (A.fmul du v) (A.fmul u dv))
    d_div :
        {x y : Expr} {u v du dv : A.Carrier}
        → Derivative x u du
        → Derivative y v dv
        → Derivative
            (binary x BinaryOp.div y)
            (A.fdiv u v)
            (A.fdiv (A.fsub (A.fmul du v) (A.fmul u dv)) (A.fmul v v))
    d_relational :
        {x y : Expr} {op : BinaryOp} {v : A.Carrier}
        → is_relational op ≡ true
        → emit_analog A F (binary x op y) ≡ some v
        → Derivative (binary x op y) v (nought A)
    d_function :
        {name : Text} {f : Builtin} {x : Expr} {u du t : A.Carrier}
        → Names f name
        → Derivative x u du
        → tangent A f u du ≡ some t
        → Derivative (call (ident name) (exprs x no_exprs)) (apply1 A f u) t
    d_power :
        {name : Text} {x y : Expr} {u v du dv : A.Carrier}
        → Names Builtin.pow name
        → Derivative x u du
        → Derivative y v dv
        → A.feq u (nought A) ≡ false
        → Derivative
            (call (ident name) (exprs x (exprs y no_exprs)))
            (apply2 A Builtin.pow u v)
            (power_tangent A u v du dv)
    d_min :
        {name : Text} {x y : Expr} {u v du dv : A.Carrier}
        → Names Builtin.min name
        → Derivative x u du
        → Derivative y v dv
        → Derivative
            (call (ident name) (exprs x (exprs y no_exprs)))
            (apply2 A Builtin.min u v)
            (if A.fle u v then du else dv)
    d_max :
        {name : Text} {x y : Expr} {u v du dv : A.Carrier}
        → Names Builtin.max name
        → Derivative x u du
        → Derivative y v dv
        → Derivative
            (call (ident name) (exprs x (exprs y no_exprs)))
            (apply2 A Builtin.max u v)
            (if A.fle v u then du else dv)
    d_if :
        {c : Expr} {b d : Block} {w u v du dv : A.Carrier}
        → emit_analog A F c ≡ some w
        → Derivative (block b) u du
        → Derivative (block d) v dv
        → Derivative
            (if_expr c b d)
            (if is_truthy A w then u else v)
            (if is_truthy A w then du else dv)
    d_block :
        {b : Block} {e : Expr} {v t : A.Carrier}
        → block_value b ≡ some e
        → Derivative e v t
        → Derivative (block b) v t
    d_empty : {b : Block} → block_value b ≡ none → Derivative (block b) (nought A) (nought A)
    d_cast :
        {name : Text} {e : Expr} {v t : A.Carrier} → Derivative e v t → Derivative (cast name e) v t
