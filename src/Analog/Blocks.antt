-- ===== src/Analog/Blocks.antt =====
-- A block has the value and the derivative of its last expression.
use piperine.Common.{◌≡◌, refl, ap, inl, inr, Option, none, some, Text, Option-cases}
use piperine.Analog.Bits.{bits_zero}
use piperine.Analog.Ast.{
  Expr, block, no_expr, just_expr, Block, body, Stmts, no_stmts, stmts, expr_stmt,
}
use piperine.Analog.Constructors.{lit}
use piperine.Analog.Diff.{Node, Tapes, unwrap_or, differentiate, block_deriv, d_stmts}
use piperine.Analog.Machine.{Arithmetic, Frame, nought}
use piperine.Analog.Emit.{emit_analog, emit_stmts}
use piperine.Analog.Folding.{some_injective}
use piperine.Analog.Derivative.{last_expr, block_value}

module _ {A : Arithmetic} (F : Frame A) where
  stmts_value :
      (ss : Stmts)
      → emit_stmts A F ss ≡ elim (last_expr ss) [ none ↦ none | some e ↦ some (emit_analog A F e) ]
  unfolding emit_analog last_expr
  stmts_value no_stmts = refl
  stmts_value (stmts (expr_stmt e) ss) = elim (Option-cases (last_expr ss)) [
    | inl n ↦ rw (stmts_value ss, n) refl
    | inr (l, h) ↦ rw (stmts_value ss, h) refl
  ]
  stmts_value (stmts s ss) = elim (Option-cases (last_expr ss)) [
    | inl n ↦ rw (stmts_value ss, n) refl
    | inr (l, h) ↦ rw (stmts_value ss, h) refl
  ]

  pub block_value-some :
      (b : Block) (e : Expr)
      → block_value b ≡ some e
      → emit_analog A F (block b) ≡ emit_analog A F e
  unfolding block_value emit_analog unwrap_or
  block_value-some (body ss (just_expr e')) e h = ap (emit_analog A F) (some_injective h)
  block_value-some (body ss no_expr) e h = rw (stmts_value ss, h) refl

  pub block_value-none :
      (b : Block) → block_value b ≡ none → emit_analog A F (block b) ≡ some (nought A)
  unfolding block_value emit_analog unwrap_or
  block_value-none (body ss (just_expr e')) h = cc
  block_value-none (body ss no_expr) h = rw (stmts_value ss, h) refl

module _ (seed : Node → Node → Expr) (resolve_node : Text → Option Node) (tapes : Tapes) where
  d_stmts_value :
      (ss : Stmts)
      → d_stmts seed resolve_node tapes ss ≡ elim (last_expr ss) [
        | none ↦ none
        | some e ↦ some (differentiate seed resolve_node tapes e)
      ]
  unfolding differentiate last_expr
  d_stmts_value no_stmts = refl
  d_stmts_value (stmts (expr_stmt e) ss) = elim (Option-cases (last_expr ss)) [
    | inl n ↦ rw (d_stmts_value ss, n) refl
    | inr (l, h) ↦ rw (d_stmts_value ss, h) refl
  ]
  d_stmts_value (stmts s ss) = elim (Option-cases (last_expr ss)) [
    | inl n ↦ rw (d_stmts_value ss, n) refl
    | inr (l, h) ↦ rw (d_stmts_value ss, h) refl
  ]

  pub block_deriv-some :
      (b : Block) (e : Expr)
      → block_value b ≡ some e
      → block_deriv seed resolve_node tapes b ≡ differentiate seed resolve_node tapes e
  unfolding block_value differentiate unwrap_or
  block_deriv-some (body ss (just_expr e')) e h =
      ap (differentiate seed resolve_node tapes) (some_injective h)
  block_deriv-some (body ss no_expr) e h = rw (d_stmts_value ss, h) refl

  pub block_deriv-none :
      (b : Block) → block_value b ≡ none → block_deriv seed resolve_node tapes b ≡ lit bits_zero
  unfolding block_value differentiate unwrap_or
  block_deriv-none (body ss (just_expr e')) h = cc
  block_deriv-none (body ss no_expr) h = rw (d_stmts_value ss, h) refl
