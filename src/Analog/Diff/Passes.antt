-- ===== src/Analog/Diff/Passes.antt =====
-- The derivatives of first, second and third order: piperine-codegen/src/resolve/diff.rs.
use piperine.Common.{◌&&◌, Option, [], ◌∷◌, ◌==◌, Text, codes, if◌then◌else◌}
use piperine.Analog.Bits.{bits_zero, bits_one, bits_minus_one}
use piperine.Analog.Ast.{Expr}
use piperine.Analog.Constructors.{lit}
use piperine.Analog.Diff.{Node, differentiate}

-- One for the branch `(plus, minus)`, nought for the others.
unfoldable pub branch_seed : Node → Node → Node → Node → Expr
branch_seed plus minus p m = if p == plus && m == minus then lit bits_one else lit bits_zero

-- `f64::from(p == node) - f64::from(m == node)`
unfoldable pub node_seed : Node → Node → Node → Expr
node_seed node p m =
    if p == node
    then (if m == node then lit bits_zero else lit bits_one)
    else (if m == node then lit bits_minus_one else lit bits_zero)

module _ (resolve_node : Text → Option Node) where
  unfoldable pub d_dv_named : Expr → Node → Node → Text → Expr
  d_dv_named e plus minus deriv_marker =
      differentiate (branch_seed plus minus) resolve_node ((codes "__temp", deriv_marker) ∷ []) e

  unfoldable pub d_dv : Expr → Node → Node → Expr
  d_dv e plus minus = d_dv_named e plus minus (codes "__dtemp")

  unfoldable pub d_dnode : Expr → Node → Expr
  d_dnode e node =
      differentiate (node_seed node) resolve_node ((codes "__temp", codes "__dtemp") ∷ []) e

  unfoldable pub d_dv_once_more_named : Expr → Node → Node → Text → Text → Text → Expr
  d_dv_once_more_named inner c d d1 d2 d12 =
      differentiate (branch_seed c d) resolve_node ((codes "__temp", d2) ∷ (d1, d12) ∷ []) inner

  unfoldable pub d_dv_twice_named : Expr → Node → Node → Node → Node → Text × Text × Text → Expr
  d_dv_twice_named e a b c d (d1, d2, d12) =
      let inner = differentiate (branch_seed a b) resolve_node ((codes "__temp", d1) ∷ []) e in
      differentiate (branch_seed c d) resolve_node ((codes "__temp", d2) ∷ (d1, d12) ∷ []) inner

  unfoldable pub d_dv_twice : Expr → Node → Node → Node → Node → Expr
  d_dv_twice e a b c d =
      d_dv_twice_named e a b c d (codes "__dtemp_inner", codes "__dtemp", codes "__ddtemp")

  unfoldable pub d_dv_thrice_from_twice : Expr → Node → Node → Expr
  d_dv_thrice_from_twice pass2 e f =
      differentiate (branch_seed e f) resolve_node
        ((codes "__temp", codes "__dtemp3")
          ∷ (codes "__dtemp1", codes "__ddtemp13")
          ∷ (codes "__dtemp2", codes "__ddtemp23")
          ∷ (codes "__ddtemp12", codes "__dddtemp123")
          ∷ [])
        pass2

  unfoldable pub d_dv_thrice : Expr → Node × Node → Node × Node → Node × Node → Expr
  d_dv_thrice expr (a, b) (c, d) (e, f) =
      let pass1 =
        differentiate (branch_seed a b) resolve_node ((codes "__temp", codes "__dtemp1") ∷ [])
          expr in
      let pass2 =
        differentiate (branch_seed c d) resolve_node
          ((codes "__temp", codes "__dtemp2") ∷ (codes "__dtemp1", codes "__ddtemp12") ∷ [])
          pass1 in
      d_dv_thrice_from_twice pass2 e f
