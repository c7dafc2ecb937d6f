-- ===== src/Analog/Examples.antt =====
-- Arithmetic modulo two, where every law of exact numbers holds, and a kernel over it.
use piperine.Common.{
  ◌≡◌, refl, ◌%◌, Bool, true, false, not, ◌&&◌, ◌||◌, Option, none, some, List, [], ◌∷◌, Text,
  codes, text_eq, if◌then◌else◌, ◌==◌, arith,
}
use piperine.Analog.Bits.{Bits, sign_bit, bits_zero, bits_one}
use piperine.Analog.Ast.{
  int, string, sys_call, BinaryOp, Expr, literal, ident, binary, call, Exprs, no_exprs, exprs,
}
use piperine.Analog.Operators.{Builtin}
use piperine.Analog.Constructors.{lit}
use piperine.Analog.Diff.{
  Node, is_access, ident_str, nth_expr, unwrap_or, differentiate, node_or_ground,
}
use piperine.Analog.Diff.Passes.{d_dv_twice, branch_seed}
use piperine.Analog.Machine.{Arithmetic, Frame}
use piperine.Analog.Ideal.{Ideal}
use piperine.Analog.Emit.{emit_analog}
use piperine.Analog.Walk.{
  has_branch, push_new, walk, collect_at, collect_call, descend, collect_branches,
}
use piperine.Analog.Once.{Once, occurrences, collect_branches-Once}
use piperine.Analog.Transport.{collect_branches_suffice}
use piperine.Analog.Powers.{power_of, caret_frozen, pow_twice_vanishes}

abbrev xor : Bool → Bool → Bool
xor true b = not b
xor false b = b

abbrev first_of : List Bool → Bool
first_of [] = false
first_of (u ∷ us) = u

abbrev native2 : Builtin → List Bool → Bool
native2 Builtin.pow (u ∷ v ∷ []) = u || not v
native2 Builtin.ln us = false
native2 f us = first_of us

abbrev modulo_two : Arithmetic
modulo_two = record {
  Carrier = Bool;
  value = λ v. not (v % sign_bit == 0);
  of_int = λ n. n % 2 == 1;
  fadd = xor;
  fsub = xor;
  fmul = ◌&&◌;
  fdiv = ◌&&◌;
  fneg = λ x. x;
  fabs = λ x. x;
  feq = λ a b. not (xor a b);
  flt = λ a b. not a && b;
  fle = λ a b. not a || b;
  native = native2;
}

-- Two nodes, p and n, with one volt between them, and one entry on each tape.
abbrev nodes : Text → Option Node
nodes name =
    if text_eq name (codes "p") then some 1 else if text_eq name (codes "n") then some 2 else none

abbrev kernel : Frame modulo_two
kernel = record {
  resolve_node = nodes;
  branch_voltages = λ p m. if p == 1 && m == 2 then some true else none;
  param_ids = λ name. none;
  params = [];
  var_ids = λ name. none;
  vars = λ id. false;
  state_bank = λ id. false;
  tape_value = λ name id. some true;
  sim = λ f. false;
  param_given_ids = λ name. none;
  param_given_mask = 0;
  current_analysis = 0;
  limits = [];
  limit_base = 0;
}

abbrev terminals : Exprs
terminals = exprs (ident (codes "p")) (exprs (ident (codes "n")) no_exprs)

abbrev voltage : Expr
voltage = call (ident (codes "V")) terminals

abbrev three : Bits
three = 0x4008000000000000

-- pow(V(p, n), 3.0) * sin(V(p, n)) + __temp(0)
abbrev current : Expr
current =
    binary
      (binary (power_of voltage (lit three)) BinaryOp.mul
        (call (ident (codes "sin")) (exprs voltage no_exprs)))
      BinaryOp.add (call (ident (codes "__temp")) (exprs (literal (int 0)) no_exprs))

caret_frozen_example :
    (emit_analog modulo_two kernel (binary voltage BinaryOp.bit_xor (lit three))
      ≡ emit_analog modulo_two kernel (power_of voltage (lit three)))
    × (differentiate (branch_seed 1 2) nodes [] (binary voltage BinaryOp.bit_xor (lit three))
        ≡ lit bits_zero)
caret_frozen_example = caret_frozen kernel (branch_seed 1 2) nodes [] voltage (lit three)

pow_twice_vanishes_example : d_dv_twice nodes (power_of voltage (lit three)) 1 2 1 2 ≡ lit bits_zero
pow_twice_vanishes_example = pow_twice_vanishes nodes terminals three 1 2 1 2

abbrev sine : Expr
sine = call (ident (codes "sin")) (exprs voltage no_exprs)

-- $limit("pnjlim", sin(V(p, n)))
abbrev limited_sine : Expr
limited_sine =
    sys_call (codes "$limit") (exprs (literal (string (codes "pnjlim"))) (exprs sine no_exprs))

only_branch :
    (p m : Node)
    → has_branch (collect_branches nodes limited_sine []) p m ≡ true
    → branch_seed 1 2 p m ≡ lit bits_one
unfolding collect_branches walk collect_at collect_call descend push_new has_branch is_access
    text_eq node_or_ground nth_expr ident_str unwrap_or branch_seed
only_branch p m h =
    let g : ((1 == p && 2 == m) || false) ≡ true = h in
    let same : (p == 1 && m == 2) ≡ true = ground arith in rw same refl

-- With the seed of one branch, and with a seed that is one for every branch.
collect_branches_suffice_example :
    differentiate (branch_seed 1 2) nodes [] limited_sine
    ≡ differentiate (λ p m. lit bits_one) nodes [] limited_sine
collect_branches_suffice_example =
    collect_branches_suffice nodes [] (branch_seed 1 2) (λ p m. lit bits_one) limited_sine
      only_branch

none_listed : Once []
unfolding occurrences
none_listed p m = omega arith

collect_branches-Once_example : Once (collect_branches nodes (binary sine BinaryOp.mul sine) [])
collect_branches-Once_example =
    collect_branches-Once nodes (binary sine BinaryOp.mul sine) [] none_listed
