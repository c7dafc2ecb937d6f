-- ===== src/Analog/Operators.antt =====
-- The operators of the code generator: piperine-codegen/src/resolve/expr.rs, and the table of
-- built-in functions of piperine-lang/src/math.rs.
use piperine.Common.{
  ℕ, ◌≡◌, refl, Option, none, some, List, [], ◌∷◌, Text, codes, text_eq, if◌then◌else◌,
}
use piperine.Analog.Ast.{BinaryOp}

pub data BinOp : Type 0 where
  add sub mul div rem pow : BinOp
  eq ne lt le gt ge : BinOp
  and or : BinOp
  bit_and bit_or bit_xor shl shr : BinOp

abbrev pub from_pom : BinaryOp → BinOp
from_pom BinaryOp.add = BinOp.add
from_pom BinaryOp.sub = BinOp.sub
from_pom BinaryOp.mul = BinOp.mul
from_pom BinaryOp.div = BinOp.div
from_pom BinaryOp.rem = BinOp.rem
from_pom BinaryOp.eq = BinOp.eq
from_pom BinaryOp.neq = BinOp.ne
from_pom BinaryOp.lt = BinOp.lt
from_pom BinaryOp.le = BinOp.le
from_pom BinaryOp.gt = BinOp.gt
from_pom BinaryOp.ge = BinOp.ge
from_pom BinaryOp.bit_and = BinOp.bit_and
from_pom BinaryOp.bit_or = BinOp.bit_or
from_pom BinaryOp.bit_xor = BinOp.bit_xor
from_pom BinaryOp.and = BinOp.and
from_pom BinaryOp.or = BinOp.or

abbrev pub to_pom : BinOp → BinaryOp
to_pom BinOp.add = BinaryOp.add
to_pom BinOp.sub = BinaryOp.sub
to_pom BinOp.mul = BinaryOp.mul
to_pom BinOp.div = BinaryOp.div
to_pom BinOp.rem = BinaryOp.rem
to_pom BinOp.eq = BinaryOp.eq
to_pom BinOp.ne = BinaryOp.neq
to_pom BinOp.lt = BinaryOp.lt
to_pom BinOp.le = BinaryOp.le
to_pom BinOp.gt = BinaryOp.gt
to_pom BinOp.ge = BinaryOp.ge
to_pom BinOp.bit_and = BinaryOp.bit_and
to_pom BinOp.bit_or = BinaryOp.bit_or
to_pom BinOp.bit_xor = BinaryOp.bit_xor
to_pom BinOp.and = BinaryOp.and
to_pom BinOp.or = BinaryOp.or
to_pom BinOp.pow = BinaryOp.bit_xor
to_pom BinOp.shl = BinaryOp.bit_xor
to_pom BinOp.shr = BinaryOp.bit_xor

pub data Builtin : Type 0 where
  sin cos tan asin acos atan atan2 sinh cosh tanh asinh acosh atanh : Builtin
  exp limexp ln log10 sqrt pow hypot abs min max floor ceil : Builtin

abbrev pub spelling : Builtin → Text
spelling Builtin.sin = codes "sin"
spelling Builtin.cos = codes "cos"
spelling Builtin.tan = codes "tan"
spelling Builtin.asin = codes "asin"
spelling Builtin.acos = codes "acos"
spelling Builtin.atan = codes "atan"
spelling Builtin.atan2 = codes "atan2"
spelling Builtin.sinh = codes "sinh"
spelling Builtin.cosh = codes "cosh"
spelling Builtin.tanh = codes "tanh"
spelling Builtin.asinh = codes "asinh"
spelling Builtin.acosh = codes "acosh"
spelling Builtin.atanh = codes "atanh"
spelling Builtin.exp = codes "exp"
spelling Builtin.limexp = codes "limexp"
spelling Builtin.ln = codes "ln"
spelling Builtin.log10 = codes "log10"
spelling Builtin.sqrt = codes "sqrt"
spelling Builtin.pow = codes "pow"
spelling Builtin.hypot = codes "hypot"
spelling Builtin.abs = codes "abs"
spelling Builtin.min = codes "min"
spelling Builtin.max = codes "max"
spelling Builtin.floor = codes "floor"
spelling Builtin.ceil = codes "ceil"

abbrev pub arity : Builtin → ℕ
arity Builtin.atan2 = 2
arity Builtin.pow = 2
arity Builtin.hypot = 2
arity Builtin.min = 2
arity Builtin.max = 2
arity _ = 1

-- The rows of the table in their order; `spelling` and `arity` are its columns.
abbrev pub math_fns : List Builtin
math_fns =
    Builtin.sin ∷ Builtin.cos ∷ Builtin.tan ∷ Builtin.asin ∷ Builtin.acos ∷ Builtin.atan
    ∷ Builtin.atan2 ∷ Builtin.sinh ∷ Builtin.cosh ∷ Builtin.tanh ∷ Builtin.asinh ∷ Builtin.acosh
    ∷ Builtin.atanh ∷ Builtin.exp ∷ Builtin.limexp ∷ Builtin.ln ∷ Builtin.log10 ∷ Builtin.sqrt
    ∷ Builtin.pow ∷ Builtin.hypot ∷ Builtin.abs ∷ Builtin.min ∷ Builtin.max ∷ Builtin.floor
    ∷ Builtin.ceil ∷ []

unfoldable pub find_spelled : Text → List Builtin → Option Builtin
find_spelled name [] = none
find_spelled name (f ∷ fs) = if text_eq (spelling f) name then some f else find_spelled name fs

unfoldable pub math_fn : Text → Option Builtin
math_fn name = find_spelled (if text_eq name (codes "log") then codes "ln" else name) math_fns

test_math : math_fn (codes "log") ≡ some Builtin.ln
unfolding math_fn find_spelled text_eq
test_math = refl
