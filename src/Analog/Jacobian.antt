-- ===== src/Analog/Jacobian.antt =====
-- The derivative with respect to one branch, which is an entry of the Jacobian.
use piperine.Common.{◌&&◌, if◌then◌else◌, ◌==◌}
use piperine.Analog.Bits.{bits_one}
use piperine.Analog.Diff.{Node}
use piperine.Analog.Machine.{Arithmetic, nought}
use piperine.Analog.Ideal.{Ideal}
use piperine.Analog.Derivative.{Derivative}

-- The branch (plus, minus) moves by one, the others stay.
unfoldable pub along : (A : Arithmetic) → Node → Node → Node → Node → A.Carrier
along A plus minus p m = if p == plus && m == minus then A.value bits_one else nought A
