-- ===== src/Analog/Emit.antt =====
-- The value that the emitted code computes for an analog expression:
-- piperine-codegen/src/emit/analog_expr.rs. An error of the emission is `none`. The memo of common
-- subexpressions returns what was computed before and changes no value.
use piperine.Common.{
  ◌*◌, ℕ, suc, ◌+◌, ◌%◌, Bool, false, not, ◌&&◌, ◌||◌, Option, none, some, List, [], ◌∷◌, ◌++◌,
  Text, codes, text_eq, starts_with, if◌then◌else◌, get_elem?, ◌==◌, ltb, leb,
}
use piperine.Analog.Bits.{bits_zero, bits_one}
use piperine.Analog.Ast.{
  Literal, real, int, bool, quad, string, absent, UnaryOp, Expr, literal, sys_call, ident, unary,
  binary, call, cast, field, block, if_expr, Exprs, no_exprs, exprs, no_expr, just_expr, Block,
  body, Stmt, expr_stmt, Stmts, no_stmts, stmts,
}
use piperine.Analog.Operators.{BinOp, from_pom, Builtin, math_fn}
use piperine.Analog.Diff.{ident_str, nth_expr, unwrap_or, trim_dollars, is_access}
use piperine.Analog.Machine.{
  Arithmetic, SimField, Frame, test_bit, and_then, bool_to_f64, is_truthy, call_math, emit_pnjlim,
  emit_fetlim, emit_limvds, nought,
}
use piperine.Analog.Structural.{expr_structural_eq}

-- `__`, any number of `d`, then `temp`.
unfoldable pub trim_ds : Text → Text
trim_ds [] = []
trim_ds (c ∷ cs) = if c == b'd' then trim_ds cs else c ∷ cs

unfoldable pub is_tape_marker : Text → Bool
is_tape_marker (c ∷ d ∷ rest) =
    c == b'_' && (d == b'_' && starts_with (trim_ds rest) (codes "temp"))
is_tape_marker _ = false

-- What a call names.
pub data Callee : Type 0 where
  branch_access state_load unsupported : Callee
  tape_marker : Callee
  math_call : Builtin → Callee

unfoldable pub callee_of : Text → Callee
callee_of name =
    if is_access name
    then Callee.branch_access
    else if text_eq name (codes "__state_load")
    then Callee.state_load
    else if is_tape_marker name
    then Callee.tape_marker
    else elim (math_fn name) [ some f ↦ Callee.math_call f | none ↦ Callee.unsupported ]

-- `to_lowercase` as far as a comparison with an ASCII name can see: of the letters outside ASCII only the
-- Kelvin sign has an ASCII letter for its lower case, and the others stay outside ASCII.
unfoldable pub to_lowercase : Text → Text
to_lowercase [] = []
to_lowercase (c ∷ cs) =
    (if leb b'A' c && leb c b'Z' then c + 32 else if c == 8490 then 107 else c) ∷ to_lowercase cs

-- `Some(Expr::Literal(Literal::String(s))) => s, _ => "?"`
unfoldable pub text_arg : Exprs → Text
text_arg (exprs (literal (string s)) es) = s
text_arg _ = codes "?"

unfoldable pub int_arg : Exprs → Option ℕ
int_arg (exprs (literal (int n)) es) = some n
int_arg _ = none

unfoldable pub count : Exprs → ℕ
count no_exprs = 0
count (exprs e es) = suc (count es)

unfoldable pub analysis_code : Text → ℕ
analysis_code kind =
    if text_eq kind (codes "ac")
    then 1
    else if text_eq kind (codes "tran")
    then 2
    else if text_eq kind (codes "noise")
    then 3
    else 0

-- `iter().position(…)`
unfoldable pub position : (Expr → Bool) → List Expr → Option ℕ
position test [] = none
position test (e ∷ es) =
    let rest = position test es in if test e then some 0 else and_then rest (λ i. some (suc i))

unfoldable pub collect {ℓ} : {A : Type ℓ} → List (Option A) → Option (List A)
collect [] = some []
collect (v ∷ vs) = and_then v (λ x. and_then (collect vs) (λ xs. some (x ∷ xs)))

module _ (A : Arithmetic) (F : Frame A) where
  unfoldable pub emit_literal : Literal → Option A.Carrier
  emit_literal (real v) = some (A.value v)
  emit_literal (int n) = some (A.of_int n)
  emit_literal (bool b) = some (if b then A.value bits_one else A.value bits_zero)
  emit_literal (quad s) = none
  emit_literal (string s) = none
  emit_literal absent = none

  -- A parameter, or a variable.
  unfoldable pub emit_name : Text → Option A.Carrier
  emit_name name = elim (F.param_ids name) [
    | some id ↦ get_elem? F.params id
    | none ↦ and_then (F.var_ids name) (λ id. some (F.vars id))
  ]

  unfoldable pub emit_branch : Exprs → Option A.Carrier
  emit_branch args =
      and_then (F.resolve_node (unwrap_or (ident_str (nth_expr args 0)) (codes "?"))) (λ plus.
        and_then (F.resolve_node (unwrap_or (ident_str (nth_expr args 1)) (codes "0")))
          (λ minus. F.branch_voltages plus minus))

  unfoldable pub emit_state_load : Exprs → Option A.Carrier
  emit_state_load args =
      and_then (int_arg args) (λ n. some (F.state_bank (n % 4294967296 * 8 % 4294967296)))

  unfoldable pub emit_call : Text → Exprs → List (Option A.Carrier) → Option A.Carrier
  emit_call name args values = elim (callee_of name) [
    | Callee.branch_access ↦ emit_branch args
    | Callee.state_load ↦ emit_state_load args
    | Callee.tape_marker ↦ and_then (int_arg args) (λ id. F.tape_value name id)
    | Callee.math_call f ↦ and_then (collect values) (λ vs. call_math A f vs)
    | Callee.unsupported ↦ none
  ]

  unfoldable pub sim_field_or_default : SimField → Option (Option A.Carrier) → Option A.Carrier
  sim_field_or_default f default =
      and_then (unwrap_or default (some (nought A)))
        (λ d. some (if A.feq (F.sim f) (nought A) then d else F.sim f))

  unfoldable pub emit_simparam : Text → Option (Option A.Carrier) → Option A.Carrier
  emit_simparam key default =
      if text_eq key (codes "gmin")
      then some (F.sim SimField.gmin)
      else if text_eq key (codes "temperature")
      then some (F.sim SimField.temperature)
      else if text_eq key (codes "step")
      then sim_field_or_default SimField.step default
      else if text_eq key (codes "tfinal")
      then sim_field_or_default SimField.tfinal default
      else if text_eq key (codes "sourceScaleFactor")
      then some (F.sim SimField.srcfact)
      else unwrap_or default (some (nought A))

  -- The limiter of a kind string.
  unfoldable pub limited : Text → A.Carrier → A.Carrier → A.Carrier → A.Carrier → Option A.Carrier
  limited kind vnew vold vte vcrit =
      if text_eq kind (codes "pnjlim")
      then some (emit_pnjlim A vnew vold vte vcrit)
      else if text_eq kind (codes "fetlim")
      then some (emit_fetlim A vnew vold vte)
      else if text_eq kind (codes "limvds")
      then some (emit_limvds A vnew vold)
      else none

  unfoldable pub string_arg : Exprs → Option Text
  string_arg (exprs (literal (string s)) es) = some s
  string_arg _ = none

  unfoldable pub emit_limit : Text → Exprs → List (Option A.Carrier) → Option A.Carrier
  emit_limit full_name args values = and_then (string_arg args) (λ kind.
      if ltb (count args) 5
      then none
      else and_then (position (λ l. expr_structural_eq l (sys_call full_name args)) F.limits)
          (λ slot. and_then (unwrap_or (get_elem? values 1) none) (λ vnew.
            and_then (unwrap_or (get_elem? values 3) none) (λ vte.
              and_then (unwrap_or (get_elem? values 4) none) (λ vcrit.
                limited kind vnew (F.state_bank ((F.limit_base + slot) * 8 % 4294967296)) vte
                  vcrit)))))

  -- `values` are the values of the arguments.
  unfoldable pub emit_syscall : Text → Exprs → List (Option A.Carrier) → Option A.Carrier
  emit_syscall name args values =
      let key = to_lowercase (trim_dollars name) in
      if text_eq key (codes "temperature")
      then some (F.sim SimField.temperature)
      else if text_eq key (codes "abstime")
      then some (F.sim SimField.abstime)
      else if text_eq key (codes "mfactor")
      then some (F.sim SimField.mfactor)
      else if text_eq key (codes "vt")
      then and_then (unwrap_or (get_elem? values 0) (some (F.sim SimField.temperature)))
          (λ t. some (A.fmul t (A.value 0x3F1696FE94E12D2C)))
      else if text_eq key (codes "simparam")
      then emit_simparam (text_arg args) (get_elem? values 1)
      else if text_eq key (codes "param_given")
      then and_then (F.param_given_ids (text_arg args))
          (λ id. some (bool_to_f64 A (test_bit F.param_given_mask (id % 64))))
      else if text_eq key (codes "analysis")
      then some (bool_to_f64 A (F.current_analysis == analysis_code (text_arg args)))
      else if text_eq key (codes "limit")
      then emit_limit name args values
      else none

  unfoldable pub emit_unary : UnaryOp → A.Carrier → A.Carrier
  emit_unary UnaryOp.negate v = A.fneg v
  emit_unary UnaryOp.complement v = bool_to_f64 A (A.feq v (nought A))

  unfoldable pub emit_binary : BinOp → A.Carrier → A.Carrier → Option A.Carrier
  emit_binary BinOp.pow x y = call_math A Builtin.pow (x ∷ y ∷ [])
  emit_binary BinOp.bit_xor x y = call_math A Builtin.pow (x ∷ y ∷ [])
  emit_binary BinOp.add x y = some (A.fadd x y)
  emit_binary BinOp.sub x y = some (A.fsub x y)
  emit_binary BinOp.mul x y = some (A.fmul x y)
  emit_binary BinOp.div x y = some (A.fdiv x y)
  emit_binary BinOp.rem x y =
      and_then (call_math A Builtin.floor (A.fdiv x y ∷ []))
        (λ floored. some (A.fsub x (A.fmul floored y)))
  emit_binary BinOp.eq x y = some (bool_to_f64 A (A.feq x y))
  emit_binary BinOp.ne x y = some (bool_to_f64 A (not (A.feq x y)))
  emit_binary BinOp.lt x y = some (bool_to_f64 A (A.flt x y))
  emit_binary BinOp.le x y = some (bool_to_f64 A (A.fle x y))
  emit_binary BinOp.gt x y = some (bool_to_f64 A (A.flt y x))
  emit_binary BinOp.ge x y = some (bool_to_f64 A (A.fle y x))
  emit_binary BinOp.and x y = some (bool_to_f64 A (is_truthy A x && is_truthy A y))
  emit_binary BinOp.or x y = some (bool_to_f64 A (is_truthy A x || is_truthy A y))
  emit_binary BinOp.bit_and x y = none
  emit_binary BinOp.bit_or x y = none
  emit_binary BinOp.shl x y = none
  emit_binary BinOp.shr x y = none

  unfoldable mutual
    pub emit_analog : Expr → Option A.Carrier
    emit_analog (literal l) = emit_literal l
    emit_analog (ident name) = emit_name name
    emit_analog (call (ident name) args) = let values = emit_args args in emit_call name args values
    emit_analog (sys_call name args) = let values = emit_args args in emit_syscall name args values
    emit_analog (unary op x) = and_then (emit_analog x) (λ v. some (emit_unary op v))
    emit_analog (binary a op b) =
        let x = emit_analog a in
        let y = emit_analog b in and_then x (λ v. and_then y (λ w. emit_binary (from_pom op) v w))
    emit_analog (if_expr c then_body else_body) =
        let t = emit_block then_body in
        let e = emit_block else_body in
        and_then (emit_analog c)
          (λ v. and_then t (λ x. and_then e (λ y. some (if is_truthy A v then x else y))))
    emit_analog (block b) = emit_block b
    emit_analog (cast name e) = emit_analog e
    emit_analog (field (ident base) name) = emit_name (base ++ codes "_" ++ name)
    emit_analog _ = none

    pub emit_args : Exprs → List (Option A.Carrier)
    emit_args no_exprs = []
    emit_args (exprs e es) = emit_analog e ∷ emit_args es

    pub emit_block : Block → Option A.Carrier
    emit_block (body ss (just_expr e)) = emit_analog e
    emit_block (body ss no_expr) = unwrap_or (emit_stmts ss) (some (nought A))

    -- the last expression among the statements
    pub emit_stmts : Stmts → Option (Option A.Carrier)
    emit_stmts no_stmts = none
    emit_stmts (stmts s ss) = elim (emit_stmts ss) [ some r ↦ some r | none ↦ emit_stmt s ]

    pub emit_stmt : Stmt → Option (Option A.Carrier)
    emit_stmt (expr_stmt e) = some (emit_analog e)
    emit_stmt _ = none
