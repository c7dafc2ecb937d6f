-- ===== src/Analog/Names.antt =====
-- How piperine-codegen/src/resolve/diff.rs and emit/analog_expr.rs read the names of the rules of calculus.
use piperine.Common.{◌≡◌, refl, false, true, [], ◌∷◌, Text, codes, text_eq, starts_with}
use piperine.Analog.Operators.{Builtin, spelling, math_fn, find_spelled}
use piperine.Analog.Diff.{
  Tapes, Rule, rule_of, chain_rule, is_access, find_tape, is_limit, trim_dollars,
}
use piperine.Analog.Emit.{Callee, callee_of, is_tape_marker, trim_ds}
use piperine.Analog.Derivative.{
  Names, spelled, log, Access, by_voltage, by_current, Query, temperature, abstime, mfactor, vt,
  simparam, param_given, analysis,
}
use piperine.Analog.Chain.{callee_of-spelling}

-- The tapes of a first derivative.
abbrev pub tapes_of : Text → Tapes
tapes_of marker = (codes "__temp", marker) ∷ []

rule_of-spelling :
    (marker : Text) (f : Builtin) → rule_of (tapes_of marker) (spelling f) ≡ Rule.chained f
unfolding rule_of chain_rule is_access find_tape text_eq starts_with math_fn find_spelled
rule_of-spelling marker Builtin.sin = refl
rule_of-spelling marker f = refl

pub rule_of-Names :
    (marker name : Text) {f : Builtin}
    → Names f name
    → rule_of (tapes_of marker) name ≡ Rule.chained f
unfolding rule_of chain_rule is_access find_tape text_eq starts_with math_fn find_spelled
rule_of-Names marker _ (spelled f) = rule_of-spelling marker f
rule_of-Names marker _ log = refl

pub callee_of-Names :
    (name : Text) {f : Builtin} → Names f name → callee_of name ≡ Callee.math_call f
unfolding callee_of is_access text_eq is_tape_marker starts_with trim_ds math_fn find_spelled
callee_of-Names _ (spelled f) = callee_of-spelling f
callee_of-Names _ log = refl

pub rule_of-Access :
    (marker name : Text) → Access name → rule_of (tapes_of marker) name ≡ Rule.seeded
unfolding rule_of is_access text_eq
rule_of-Access marker _ by_voltage = refl
rule_of-Access marker _ by_current = refl

pub callee_of-Access : (name : Text) → Access name → callee_of name ≡ Callee.branch_access
unfolding callee_of is_access text_eq
callee_of-Access _ by_voltage = refl
callee_of-Access _ by_current = refl

pub is_limit-Query : (name : Text) → Query name → is_limit name ≡ false
unfolding is_limit trim_dollars text_eq
is_limit-Query _ temperature = refl
is_limit-Query _ abstime = refl
is_limit-Query _ mfactor = refl
is_limit-Query _ vt = refl
is_limit-Query _ simparam = refl
is_limit-Query _ param_given = refl
is_limit-Query _ analysis = refl

pub is_limit-limit : is_limit (codes "$limit") ≡ true
unfolding is_limit trim_dollars text_eq
is_limit-limit = refl

pub rule_of-state : (marker : Text) → rule_of (tapes_of marker) (codes "__state_load") ≡ Rule.frozen
unfolding rule_of chain_rule is_access find_tape text_eq starts_with
rule_of-state marker = refl

pub rule_of-temp : (marker : Text) → rule_of (tapes_of marker) (codes "__temp") ≡ Rule.taped marker
unfolding rule_of is_access find_tape text_eq
rule_of-temp marker = refl

pub callee_of-temp : callee_of (codes "__temp") ≡ Callee.tape_marker
unfolding callee_of is_access text_eq is_tape_marker starts_with trim_ds
callee_of-temp = refl
