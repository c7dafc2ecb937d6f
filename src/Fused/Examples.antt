-- ===== src/Fused/Examples.antt =====
-- Two inverters in a row, from net 0 through net 1 to net 2.
use piperine.Common.{
  ℕ, ◌+◌, ◌≤◌, ◌<◌, ◌≡◌, ◌⊎◌, refl, true, false, List, [], ◌∷◌, some, if◌then◌else◌, ◌==◌,
  get_elem?, get_or, set,
}
use piperine.F64.{ticks}
use piperine.Digital.Logic.{LogicValue, value_eq}
use piperine.Digital.Interface.{EvalCtx, Emission, contains_net}
use piperine.Fused.{
  VarType, LoweredBody, layout_of, lookup, add_vars, add_var, add_nodes, index_from, empty_layout,
  NetworkMember, NetworkPorts, reads, drives, ports_of, cone_of, dedup, dedup_from, touches,
  to_quad, from_quad, and_then,
}
use piperine.Fused.Network.{
  Pass, DigitalNetwork, build, bank_sizes, max_of, all_params, write_params, all_inits, write_inits,
  write_init, write_at, settle, settle_loop, run_once, driven_now, read_nets, quads_eq, comb_phase,
  sync, publish_changed,
}
use piperine.Fused.Layout.{layout_of-slots, Bank, size}
use piperine.Fused.Ports.{ports_of-boundary}
use piperine.Fused.Settles.{settle-passes, passes, Stable}
use piperine.Fused.Publishes.{apply_all, comb_phase_publishes}

abbrev inverter_body : LoweredBody
inverter_body = record {
  inputs = 1 ∷ [];
  outputs = 2 ∷ [];
  vars = (0, VarType.quad) ∷ (1, VarType.real) ∷ (2, VarType.bool) ∷ [];
  nodes = (0, true) ∷ (1, false) ∷ (2, true) ∷ [];
}

abbrev flag : ℕ
flag = 2

layout_of-slots_example : (1 < size Bank.int_bank (layout_of inverter_body)) × (flag ≡ flag)
unfolding layout_of lookup add_vars add_var add_nodes index_from empty_layout
layout_of-slots_example = layout_of-slots inverter_body Bank.int_bank flag flag 1 refl refl

abbrev inverter : ℕ → ℕ → NetworkMember ticks
inverter input output = record {
  body = inverter_body;
  in_nets = input ∷ [];
  out_nets = output ∷ [];
  params = [];
  int_base = input + input;
  real_base = input;
  param_base = 0;
  reg_inits = (0, 1) ∷ (1, 5) ∷ (7, 9) ∷ [];
}

abbrev inverters : List (NetworkMember ticks)
inverters = inverter 0 1 ∷ inverter 1 2 ∷ []

-- Net 1 is driven by one and read by the other.
ports_of-boundary_example :
    (contains_net (NetworkPorts.inputs (ports_of ticks inverters)) 1 ≡ false)
    × (contains_net (NetworkPorts.outputs (ports_of ticks inverters)) 1 ≡ true)
    × (contains_net (cone_of ticks inverters) 1 ≡ true)
unfolding contains_net reads drives
ports_of-boundary_example = ports_of-boundary inverters 1

-- not, on quads
abbrev negated : ℕ → ℕ
negated q = if q == 0 then 1 else if q == 1 then 0 else 2

abbrev drive : ℕ → ℕ → List ℕ → List ℕ
drive input output nets = set nets output (negated (get_or nets input 2))

abbrev both_inverters : Pass ticks
both_inverters params t a = record a { nets = drive 1 2 (drive 0 1 a.nets) }

abbrev chain : DigitalNetwork ticks 0 (λ v. v)
chain = record {
  comb = both_inverters;
  arrays = record { nets = 2 ∷ 2 ∷ 2 ∷ []; vars_int = 1 ∷ 2 ∷ 1 ∷ 2 ∷ []; vars_real = 5 ∷ 5 ∷ [] };
  params = [];
  ports = record { inputs = 0 ∷ []; outputs = 1 ∷ 2 ∷ [] };
  cone_nets = 0 ∷ 1 ∷ 2 ∷ [];
  abstime = 0;
  source = 4;
  settle_cap = 4;
}

built : build ticks 0 (λ v. v) (some both_inverters) inverters 3 4 ≡ some chain
unfolding build bank_sizes max_of all_params write_params all_inits write_inits write_init write_at
    ports_of cone_of dedup dedup_from touches reads drives contains_net layout_of lookup add_vars
    add_var add_nodes index_from empty_layout and_then to_quad
built = refl

abbrev with_nets : List ℕ → ℕ → DigitalNetwork ticks 0 (λ v. v)
with_nets nets t = record chain { abstime = t; arrays = record (chain.arrays) { nets = nets } }

settle-passes_example :
    (k : ℕ) × (k ≤ 4)
    × (with_nets (0 ∷ 1 ∷ 0 ∷ []) 9
        ≡ passes {F = ticks} 0 (λ v. v) k (with_nets (0 ∷ 2 ∷ 2 ∷ []) 9))
    × ((k ≡ 4)
        ⊎ Stable {F = ticks} 0
            (λ v. v)
            k
            (with_nets (0 ∷ 2 ∷ 2 ∷ []) 9)
            (with_nets (0 ∷ 1 ∷ 0 ∷ []) 9))
unfolding settle settle_loop run_once driven_now read_nets quads_eq and_then
settle-passes_example =
    settle-passes {F = ticks} 0 (λ v. v) (with_nets (0 ∷ 2 ∷ 2 ∷ []) 9)
      (with_nets (0 ∷ 1 ∷ 0 ∷ []) 9) refl

abbrev scheduler_view : EvalCtx ticks
scheduler_view = record {
  time = 9;
  nets = LogicValue.zero ∷ LogicValue.x ∷ LogicValue.zero ∷ [];
  analog = [];
}

abbrev raised : Emission ticks
raised = record { net = 1; value = LogicValue.one; delay = 0 }

comb_phase_publishes_example :
    get_elem? (apply_all (raised ∷ []) scheduler_view.nets) 1 ≡ some LogicValue.one
unfolding comb_phase sync write_at to_quad from_quad publish_changed value_eq settle settle_loop
    run_once driven_now read_nets quads_eq and_then contains_net
comb_phase_publishes_example =
    comb_phase_publishes 0 (λ v. v) scheduler_view chain (with_nets (0 ∷ 1 ∷ 0 ∷ []) 9)
      (raised ∷ []) refl 1
