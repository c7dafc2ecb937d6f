-- ===== src/Analog/Correct.antt =====
-- The symbolic derivative evaluates to the derivative.
use piperine.Common.{◌≡◌, refl, ap, ◌∙◌, some, Text, codes}
use piperine.Analog.Ast.{int, BinaryOp, Expr, literal, block, no_exprs, exprs}
use piperine.Analog.Operators.{BinOp, Builtin}
use piperine.Analog.Constructors.{block_of, d_binary}
use piperine.Analog.Diff.{Node, nth_expr, unwrap_or, d_tape, differentiate}
use piperine.Analog.Machine.{Arithmetic, Frame}
use piperine.Analog.Ideal.{Ideal}
use piperine.Analog.Names.{
  tapes_of, rule_of-Names, callee_of-Names, rule_of-Access, callee_of-Access, is_limit-Query,
  is_limit-limit, rule_of-state, rule_of-temp, callee_of-temp,
}
use piperine.Analog.Emit.{Callee, callee_of, emit_analog, emit_literal, emit_unary, emit_binary}
use piperine.Analog.Folding.{emit-add, emit-sub, emit-mul, emit-div, emit-neg, emit-zero}
use piperine.Analog.Blocks.{block_value-some, block_value-none, block_deriv-some, block_deriv-none}
use piperine.Analog.Calls.{
  called, d_query_zero, d_access_seed, d_relational_zero, emit_access, emit_taped, emit_binary2,
  emit_negated, emit_if, emit_function1, emit_function2, emit_pick, d_math-pow, d_math-min,
  d_math-max, d_math-d_math1,
}
use piperine.Analog.Chain.{emit-d_math1, emit-pow_rule}
use piperine.Analog.Derivative.{
  Derivative, d_real, d_int, d_bool, d_ident, d_field, d_query, d_limit, d_access, d_state, d_taped,
  d_neg, d_not, d_add, d_sub, d_mul, d_div, d_relational, d_function, d_power, d_min, d_max, d_if,
  d_block, d_empty, d_cast,
}

module _ {A : Arithmetic} (I : Ideal A) (F : Frame A) (seed : Node → Node → Expr)
    (seed_value : Node → Node → A.Carrier) (marker : Text)
    (marks : callee_of marker ≡ Callee.tape_marker)
    (seeded : (p m : Node) → emit_analog A F (seed p m) ≡ some (seed_value p m)) where
  abbrev D : Expr → Expr
  D e = differentiate seed F.resolve_node (tapes_of marker) e

  -- Whatever has a derivative by the rules gets emitted with its value, and its symbolic derivative
  -- gets emitted with that derivative.
  pub differentiate_correct :
      (e : Expr) {v t : A.Carrier}
      → Derivative F seed_value marker e v t
      → (emit_analog A F e ≡ some v)
        × (emit_analog A F (differentiate seed F.resolve_node (tapes_of marker) e) ≡ some t)
  unfolding emit_analog emit_literal emit_binary emit_unary differentiate d_binary d_tape unwrap_or
      nth_expr block_of
  differentiate_correct _ (d_real w) = (refl, emit-zero I F)
  differentiate_correct _ (d_int n) = (refl, emit-zero I F)
  differentiate_correct _ (d_bool h) = (h, emit-zero I F)
  differentiate_correct _ (d_ident h) = (h, emit-zero I F)
  differentiate_correct _ (d_field h) = (h, emit-zero I F)
  differentiate_correct _ (d_query {name} {args} l a h) = (
    h,
    rw (d_query_zero seed F.resolve_node (tapes_of marker) name args (is_limit-Query name l))
        (emit-zero I F),
  )
  differentiate_correct _ (d_limit {x} {kind} {args} h d) =
      let (_, q) = differentiate_correct x d in (h, rw is_limit-limit q)
  differentiate_correct _ (d_access {name} {a} {args} {p} {m} n i hp hm h) = (
    emit_access I F name args (callee_of-Access name n) i hp hm h,
    rw
        (d_access_seed seed F.resolve_node (tapes_of marker) name args
          (rule_of-Access marker name n) i hp hm)
        (seeded p m),
  )
  differentiate_correct _ (d_state {args} h) = (
    h,
    rw
        (called seed F.resolve_node (tapes_of marker) (codes "__state_load") args
          (rule_of-state marker))
        (emit-zero I F),
  )
  differentiate_correct _ (d_taped {id} h h') = (
    emit_taped I F callee_of-temp h,
    rw
        (called seed F.resolve_node (tapes_of marker) (codes "__temp")
          (exprs (literal (int id)) no_exprs) (rule_of-temp marker))
        (emit_taped I F marks h'),
  )
  differentiate_correct _ (d_neg {x} d) =
      let (p, q) = differentiate_correct x d in (emit_negated I F x p, emit-neg I F (D x) q)
  differentiate_correct _ (d_not h) = (h, emit-zero I F)
  differentiate_correct _ (d_add {x} {y} d d') =
      let (p, q) = differentiate_correct x d in
      let (p', q') = differentiate_correct y d' in
      (emit_binary2 I F x y BinaryOp.add p p', emit-add I F (D x) (D y) q q')
  differentiate_correct _ (d_sub {x} {y} d d') =
      let (p, q) = differentiate_correct x d in
      let (p', q') = differentiate_correct y d' in
      (emit_binary2 I F x y BinaryOp.sub p p', emit-sub I F (D x) (D y) q q')
  differentiate_correct _ (d_mul {x} {y} d d') =
      let (p, q) = differentiate_correct x d in
      let (p', q') = differentiate_correct y d' in
      (
        emit_binary2 I F x y BinaryOp.mul p p',
        emit-add I F _ _ (emit-mul I F (D x) y q p') (emit-mul I F x (D y) p q'),
      )
  differentiate_correct _ (d_div {x} {y} d d') =
      let (p, q) = differentiate_correct x d in
      let (p', q') = differentiate_correct y d' in
      (
        emit_binary2 I F x y BinaryOp.div p p',
        emit-div I F _ _ (emit-sub I F _ _ (emit-mul I F (D x) y q p') (emit-mul I F x (D y) p q'))
            (emit-mul I F y y p' p'),
      )
  differentiate_correct _ (d_relational {x} {y} {op} o h) =
      (h, rw (d_relational_zero seed F.resolve_node (tapes_of marker) x y op o) (emit-zero I F))
  differentiate_correct _ (d_function {name} {f} {x} {u} {du} n d h) =
      let (p, q) = differentiate_correct x d in
      (
        emit_function1 I F name f x u du (callee_of-Names name n) h p,
        rw
            (called seed F.resolve_node (tapes_of marker) name (exprs x no_exprs)
              (rule_of-Names marker name n))
            (rw (d_math-d_math1 A f x (D x) u du h) (emit-d_math1 I F f x (D x) h p q)),
      )
  differentiate_correct _ (d_power {name} {x} {y} k d d' n) =
      let (p, q) = differentiate_correct x d in
      let (p', q') = differentiate_correct y d' in
      (
        emit_function2 I F name Builtin.pow x y (callee_of-Names name k) refl p p',
        rw
            (called seed F.resolve_node (tapes_of marker) name (exprs x (exprs y no_exprs))
              (rule_of-Names marker name k))
            (rw (d_math-pow x y (D x) (D y)) (emit-pow_rule I F x y (D x) (D y) n p p' q q')),
      )
  differentiate_correct _ (d_min {name} {x} {y} k d d') =
      let (p, q) = differentiate_correct x d in
      let (p', q') = differentiate_correct y d' in
      (
        emit_function2 I F name Builtin.min x y (callee_of-Names name k) refl p p',
        rw
            (called seed F.resolve_node (tapes_of marker) name (exprs x (exprs y no_exprs))
              (rule_of-Names marker name k))
            (rw (d_math-min x y (D x) (D y))
              (emit_pick I F BinOp.le x y (D x) (D y) _ p p' q q' refl)),
      )
  differentiate_correct _ (d_max {name} {x} {y} k d d') =
      let (p, q) = differentiate_correct x d in
      let (p', q') = differentiate_correct y d' in
      (
        emit_function2 I F name Builtin.max x y (callee_of-Names name k) refl p p',
        rw
            (called seed F.resolve_node (tapes_of marker) name (exprs x (exprs y no_exprs))
              (rule_of-Names marker name k))
            (rw (d_math-max x y (D x) (D y))
              (emit_pick I F BinOp.ge x y (D x) (D y) _ p p' q q' refl)),
      )
  differentiate_correct _ (d_if {c} {b} {d} h db dd) =
      let (p, q) = differentiate_correct (block b) db in
      let (p', q') = differentiate_correct (block d) dd in
      (
        emit_if I F c b d h p p',
        emit_if I F c (block_of (D (block b))) (block_of (D (block d))) h q q',
      )
  differentiate_correct _ (d_block {b} {e} h d) =
      let (p, q) = differentiate_correct e d in
      (
        block_value-some F b e h ∙ p,
        ap (emit_analog A F) (block_deriv-some seed F.resolve_node (tapes_of marker) b e h) ∙ q,
      )
  differentiate_correct _ (d_empty {b} h) = (
    block_value-none F b h,
    ap (emit_analog A F) (block_deriv-none seed F.resolve_node (tapes_of marker) b h)
        ∙ emit-zero I F,
  )
  differentiate_correct _ (d_cast {name} {e} d) = differentiate_correct e d
