-- ===== src/Analog/Calls.antt =====
-- What calls, queries, conditionals and their derivatives are emitted to.
use piperine.Common.{
  ℕ, ◌≡◌, refl, ◌∙◌, Bool, true, false, Option, some, [], ◌∷◌, Text, codes, if◌then◌else◌,
}
use piperine.Analog.Bits.{bits_zero}
use piperine.Analog.Ast.{
  int, UnaryOp, BinaryOp, Expr, literal, sys_call, ident, unary, binary, call, block, if_expr,
  Exprs, no_exprs, exprs, Block,
}
use piperine.Analog.Operators.{BinOp, from_pom, to_pom, Builtin, arity}
use piperine.Analog.Constructors.{
  lit, d_math1, d_binary, d_other, d_via_pow, unpack_pow, pow_rule, pick, binary_of,
}
use piperine.Analog.Diff.{
  Node, Tapes, Rule, rule_of, is_limit, ident_str, nth_expr, unwrap_or, node_or_ground, d_call,
  d_tape, d_math, differentiate, d_args,
}
use piperine.Analog.Machine.{Arithmetic, Frame, and_then, call_math, is_truthy, bool_to_f64}
use piperine.Analog.Ideal.{Ideal}
use piperine.Analog.Emit.{
  emit_analog, emit_args, emit_unary, emit_binary, emit_call, emit_branch, int_arg, collect, Callee,
  callee_of,
}
use piperine.Analog.Folding.{emit-binary_of}
use piperine.Analog.Chain.{emit-called, emit-choose}
use piperine.Analog.Derivative.{is_relational, tangent, apply1, apply2}

module _ (seed : Node → Node → Expr) (resolve_node : Text → Option Node) (tapes : Tapes) where
  abbrev D : Expr → Expr
  D e = differentiate seed resolve_node tapes e

  -- The derivative of a call whose callee has a rule.
  pub called :
      (name : Text) {r : Rule} (args : Exprs)
      → rule_of tapes name ≡ r
      → D (call (ident name) args) ≡ elim r [
        | Rule.seeded ↦
            seed
              (node_or_ground resolve_node (nth_expr args 0))
              (node_or_ground resolve_node (nth_expr args 1))
        | Rule.taped deriv ↦ d_tape deriv (nth_expr args 0)
        | Rule.frozen ↦ lit bits_zero
        | Rule.chained f ↦ d_math f args (d_args seed resolve_node tapes args)
        | Rule.unknown ↦ lit bits_zero
      ]
  unfolding differentiate d_call
  called name args h = rw (h, d_call) refl

  pub d_query_zero :
      (name : Text) (args : Exprs) → is_limit name ≡ false → D (sys_call name args) ≡ lit bits_zero
  unfolding differentiate
  d_query_zero name args h = rw h refl

  pub d_access_seed :
      (name : Text) {a : Text} (args : Exprs) {p m : Node}
      → rule_of tapes name ≡ Rule.seeded
      → ident_str (nth_expr args 0) ≡ some a
      → resolve_node a ≡ some p
      → resolve_node (unwrap_or (ident_str (nth_expr args 1)) (codes "0")) ≡ some m
      → D (call (ident name) args) ≡ seed p m
  unfolding node_or_ground unwrap_or
  d_access_seed name args r a p m = called name args r ∙ rw a (rw p (rw m refl))

  pub d_relational_zero :
      (x y : Expr) (op : BinaryOp) → is_relational op ≡ true → D (binary x op y) ≡ lit bits_zero
  unfolding differentiate is_relational d_binary d_other
  d_relational_zero x y BinaryOp.add h = cc
  d_relational_zero x y BinaryOp.sub h = cc
  d_relational_zero x y BinaryOp.mul h = cc
  d_relational_zero x y BinaryOp.div h = cc
  d_relational_zero x y BinaryOp.rem h = cc
  d_relational_zero x y BinaryOp.bit_and h = cc
  d_relational_zero x y BinaryOp.bit_or h = cc
  d_relational_zero x y BinaryOp.bit_xor h = cc
  d_relational_zero x y op h = refl

pub d_math-pow :
    (x y dx dy : Expr)
    → d_math Builtin.pow (exprs x (exprs y no_exprs)) (dx ∷ dy ∷ []) ≡ pow_rule x y dx dy
unfolding d_math nth_expr unwrap_or d_via_pow unpack_pow binary_of
d_math-pow x y dx dy = refl

pub d_math-min :
    (x y dx dy : Expr)
    → d_math Builtin.min (exprs x (exprs y no_exprs)) (dx ∷ dy ∷ []) ≡ pick BinOp.le x y dx dy
unfolding d_math nth_expr unwrap_or
d_math-min x y dx dy = refl

pub d_math-max :
    (x y dx dy : Expr)
    → d_math Builtin.max (exprs x (exprs y no_exprs)) (dx ∷ dy ∷ []) ≡ pick BinOp.ge x y dx dy
unfolding d_math nth_expr unwrap_or
d_math-max x y dx dy = refl

pub d_math-d_math1 :
    (A : Arithmetic) (f : Builtin) (x dx : Expr) (u du : A.Carrier) {t : A.Carrier}
    → tangent A f u du ≡ some t
    → d_math f (exprs x no_exprs) (dx ∷ []) ≡ d_math1 f x dx
unfolding d_math nth_expr unwrap_or tangent
d_math-d_math1 A Builtin.pow x dx u du h = cc
d_math-d_math1 A Builtin.min x dx u du h = cc
d_math-d_math1 A Builtin.max x dx u du h = cc
d_math-d_math1 A f x dx u du h = refl

module _ {A : Arithmetic} (I : Ideal A) (F : Frame A) where
  pub emit_access :
      (name : Text) {a : Text} (args : Exprs) {p m : Node} {v : A.Carrier}
      → callee_of name ≡ Callee.branch_access
      → ident_str (nth_expr args 0) ≡ some a
      → F.resolve_node a ≡ some p
      → F.resolve_node (unwrap_or (ident_str (nth_expr args 1)) (codes "0")) ≡ some m
      → F.branch_voltages p m ≡ some v
      → emit_analog A F (call (ident name) args) ≡ some v
  unfolding emit_analog emit_call emit_branch and_then unwrap_or
  emit_access name args c a p m v = rw (c, emit_call) (rw (a, emit_branch) (rw p (rw m v)))

  pub emit_taped :
      {name : Text} {id : ℕ} {v : A.Carrier}
      → callee_of name ≡ Callee.tape_marker
      → F.tape_value name id ≡ some v
      → emit_analog A F (call (ident name) (exprs (literal (int id)) no_exprs)) ≡ some v
  unfolding emit_analog emit_call int_arg and_then
  emit_taped c h = rw (c, emit_call) h

  pub emit_binary2 :
      (x y : Expr) (op : BinaryOp) {u v : A.Carrier}
      → emit_analog A F x ≡ some u
      → emit_analog A F y ≡ some v
      → emit_analog A F (binary x op y) ≡ emit_binary A F (from_pom op) u v
  unfolding emit_analog and_then
  emit_binary2 x y op p q = rw p (rw q refl)

  pub emit_negated :
      (x : Expr) {u : A.Carrier}
      → emit_analog A F x ≡ some u
      → emit_analog A F (unary UnaryOp.negate x) ≡ some (A.fneg u)
  unfolding emit_analog and_then emit_unary
  emit_negated x p = rw p refl

  pub emit_if :
      (c : Expr) (b d : Block) {w u v : A.Carrier}
      → emit_analog A F c ≡ some w
      → emit_analog A F (block b) ≡ some u
      → emit_analog A F (block d) ≡ some v
      → emit_analog A F (if_expr c b d) ≡ some (if is_truthy A w then u else v)
  unfolding emit_analog and_then
  emit_if c b d h p q = rw h (rw p (rw q refl))

  pub unary_arity :
      (f : Builtin) (u du : A.Carrier) {t : A.Carrier} → tangent A f u du ≡ some t → arity f ≡ 1
  unfolding tangent
  unary_arity Builtin.atan2 u du h = cc
  unary_arity Builtin.pow u du h = cc
  unary_arity Builtin.hypot u du h = cc
  unary_arity Builtin.min u du h = cc
  unary_arity Builtin.max u du h = cc
  unary_arity f u du h = refl

  pub emit_function1 :
      (name : Text) (f : Builtin) (x : Expr) (u du : A.Carrier) {t : A.Carrier}
      → callee_of name ≡ Callee.math_call f
      → tangent A f u du ≡ some t
      → emit_analog A F x ≡ some u
      → emit_analog A F (call (ident name) (exprs x no_exprs)) ≡ some (apply1 A f u)
  unfolding collect and_then call_math emit_args
  emit_function1 name f x u du c h p =
      emit-called I F name (exprs x no_exprs) c ∙ rw p (rw (unary_arity f u du h) refl)

  pub emit_function2 :
      (name : Text) (f : Builtin) (x y : Expr) {u v : A.Carrier}
      → callee_of name ≡ Callee.math_call f
      → arity f ≡ 2
      → emit_analog A F x ≡ some u
      → emit_analog A F y ≡ some v
      → emit_analog A F (call (ident name) (exprs x (exprs y no_exprs))) ≡ some (apply2 A f u v)
  unfolding collect and_then call_math emit_args
  emit_function2 name f x y c h p q =
      emit-called I F name (exprs x (exprs y no_exprs)) c ∙ rw p (rw q (rw h refl))

  pub emit_pick :
      (op : BinOp) (x y dx dy : Expr) {u v du dv : A.Carrier} (b : Bool)
      → emit_analog A F x ≡ some u
      → emit_analog A F y ≡ some v
      → emit_analog A F dx ≡ some du
      → emit_analog A F dy ≡ some dv
      → emit_binary A F (from_pom (to_pom op)) u v ≡ some (bool_to_f64 A b)
      → emit_analog A F (pick op x y dx dy) ≡ some (if b then du else dv)
  unfolding pick
  emit_pick op x y dx dy b p p' q q' h =
      emit-choose I F (binary_of op x y) dx dy b (emit-binary_of I F op x y p p' ∙ h) q q'
