-- ===== src/Fused.antt =====
-- The fused evaluator of a combinational cone: crates/piperine-codegen/src/kernel/digital/network.rs
-- and layout.rs. The compiled pass is a parameter; a quad is a natural number.
pub mod Network
mod Layout
mod Ports
mod Settles
mod Publishes
mod Examples
use piperine.Common.{
  ℕ, zero, suc, ◌+◌, ◌≡◌, Bool, true, false, not, ◌&&◌, ◌||◌, List, [], ◌∷◌, ◌++◌, Option, none,
  some, if◌then◌else◌, ◌==◌, ltb, length, get_elem?, set, replicate, retain,
}
use piperine.F64.{F64}
use piperine.Digital.Logic.{LogicValue, value_eq}
use piperine.Digital.Event.{DigitalNet}
use piperine.Digital.Interface.{EvalCtx, Emission, contains_net}

unfoldable pub to_quad : LogicValue → ℕ
to_quad LogicValue.zero = 0
to_quad LogicValue.one = 1
to_quad LogicValue.x = 2
to_quad LogicValue.z = 3

unfoldable pub from_quad : ℕ → LogicValue
from_quad q =
    if q == 0
    then LogicValue.zero
    else if q == 1
    then LogicValue.one
    else if q == 3
    then LogicValue.z
    else LogicValue.x

pub data VarType : Type 0 where
  real integer bool quad : VarType

-- A hash map: the entry inserted last is found.
abbrev pub Index : Type 0
Index = List (ℕ × ℕ)

unfoldable pub lookup : Index → ℕ → Option ℕ
lookup [] k = none
lookup ((key, slot) ∷ rest) k = let found = lookup rest k in if key == k then some slot else found

pub record DigitalLayout : Type 0 where
  pub input_index : Index
  pub output_index : Index
  pub int_slot : Index
  pub real_slot : Index
  pub num_int : ℕ
  pub num_real : ℕ
  pub analog_index : Index
  pub num_analog : ℕ

-- `for (i, &node) in nodes.iter().enumerate()`
unfoldable pub index_from : ℕ → List ℕ → Index → Index
index_from i [] index = index
index_from i (n ∷ ns) index = index_from (suc i) ns ((n, i) ∷ index)

unfoldable pub add_var : ℕ × VarType → DigitalLayout → DigitalLayout
add_var (id, VarType.real) l = record l {
  real_slot = (id, l.num_real) ∷ l.real_slot;
  num_real = suc l.num_real;
}
add_var (id, _) l = record l { int_slot = (id, l.num_int) ∷ l.int_slot; num_int = suc l.num_int }

unfoldable pub add_vars : List (ℕ × VarType) → DigitalLayout → DigitalLayout
add_vars [] l = l
add_vars (v ∷ vs) l = add_vars vs (add_var v l)

-- A node and whether its domain is analog; ground is node 0.
unfoldable pub add_nodes : List (ℕ × Bool) → DigitalLayout → DigitalLayout
add_nodes [] l = l
add_nodes ((id, is_analog) ∷ ns) l = add_nodes ns (
    if is_analog && not (id == 0)
    then record l {
      analog_index = (id, l.num_analog) ∷ l.analog_index;
      num_analog = suc l.num_analog;
    }
    else l)

unfoldable pub empty_layout : DigitalLayout
empty_layout = record {
  input_index = [];
  output_index = [];
  int_slot = [];
  real_slot = [];
  num_int = 0;
  num_real = 0;
  analog_index = [];
  num_analog = 0;
}

-- The part of a LoweredBody that the layout reads.
pub record LoweredBody : Type 0 where
  pub inputs : List ℕ
  pub outputs : List ℕ
  pub vars : List (ℕ × VarType)
  pub nodes : List (ℕ × Bool)

unfoldable pub layout_of : LoweredBody → DigitalLayout
layout_of module_body = add_nodes module_body.nodes (
    add_vars module_body.vars (record empty_layout {
      input_index = index_from 0 module_body.inputs [];
      output_index = index_from 0 module_body.outputs [];
    }))

unfoldable pub dedup_from : List DigitalNet → List DigitalNet → List DigitalNet
dedup_from seen [] = []
dedup_from seen (n ∷ ns) =
    let rest = dedup_from seen ns in
    let fresh = dedup_from (n ∷ seen) ns in if contains_net seen n then rest else n ∷ fresh

unfoldable pub dedup : List DigitalNet → List DigitalNet
dedup ns = dedup_from [] ns

unfoldable pub and_then {ℓ} : {A B : Type ℓ} → Option A → (A → Option B) → Option B
and_then none f = none
and_then (some a) f = f a

module _ (F : F64) where
  pub record NetworkMember : Type 0 where
    pub body : LoweredBody
    pub in_nets : List DigitalNet
    pub out_nets : List DigitalNet
    pub params : List F.Carrier
    pub int_base : ℕ
    pub real_base : ℕ
    pub param_base : ℕ
    pub reg_inits : List (ℕ × F.Carrier)

  unfoldable pub reads : List NetworkMember → List DigitalNet
  reads [] = []
  reads (m ∷ ms) = m.in_nets ++ reads ms

  unfoldable pub drives : List NetworkMember → List DigitalNet
  drives [] = []
  drives (m ∷ ms) = m.out_nets ++ drives ms

  unfoldable pub touches : List NetworkMember → List DigitalNet
  touches [] = []
  touches (m ∷ ms) = m.in_nets ++ (m.out_nets ++ touches ms)

  pub record NetworkPorts : Type 0 where
    pub inputs : List DigitalNet
    pub outputs : List DigitalNet

  unfoldable pub ports_of : List NetworkMember → NetworkPorts
  ports_of members =
      let outputs = drives members in
      record {
        inputs = dedup (retain (λ n. not (contains_net outputs n)) (reads members));
        outputs = dedup outputs;
      }

  unfoldable pub cone_of : List NetworkMember → List DigitalNet
  cone_of members = dedup (touches members)
