-- ===== src/Fused/Network.antt =====
-- `DigitalNetwork` of crates/piperine-codegen/src/kernel/digital/network.rs. A method that indexes
-- outside a list is `none`, as it panics; the compiled pass is a parameter over the nets and banks.
use piperine.Common.{
  ℕ, zero, suc, ◌+◌, Bool, List, [], ◌∷◌, Option, none, some, if◌then◌else◌, ◌==◌, leb, ltb, length,
  get_elem?, set, replicate, true, ◌&&◌,
}
use piperine.F64.{F64}
use piperine.Digital.Logic.{LogicValue, value_eq}
use piperine.Digital.Event.{DigitalNet}
use piperine.Digital.Interface.{EvalCtx, Emission}
use piperine.Fused.{
  to_quad, from_quad, DigitalLayout, lookup, layout_of, NetworkMember, NetworkPorts, ports_of,
  cone_of, and_then,
}

-- `a.max(b)`
unfoldable pub max_of : ℕ → ℕ → ℕ
max_of a b = if leb a b then b else a

-- `xs[i] = v`
unfoldable pub write_at {ℓ} : {A : Type ℓ} → List A → ℕ → A → Option (List A)
write_at xs i v = if ltb i (length xs) then some (set xs i v) else none

unfoldable pub quads_eq : List ℕ → List ℕ → Bool
quads_eq [] ys = true
quads_eq (x ∷ xs) [] = true
quads_eq (x ∷ xs) (y ∷ ys) = x == y && quads_eq xs ys

-- `nets.iter().map(|n| values[n.0])`
unfoldable pub read_nets {ℓ} : {A : Type ℓ} → List A → List DigitalNet → Option (List A)
read_nets values [] = some []
read_nets values (n ∷ ns) =
    and_then (get_elem? values n) (λ v. and_then (read_nets values ns) (λ vs. some (v ∷ vs)))

-- An i64 by its 64 bits in two's complement: a negative value v is 2 ^ 64 + v.
abbrev pub I64 : Type 0
I64 = ℕ

-- The shared arrays that the compiled pass writes.
pub record Arrays (F : F64) : Type 0 where
  pub nets : List I64
  pub vars_int : List I64
  pub vars_real : List F.Carrier

-- `NetworkComb::run` on the arrays, the parameters and the time of the simulation.
abbrev pub Pass : F64 → Type 0
Pass F = List (F64.Carrier F) → F64.Carrier F → Arrays F → Arrays F

-- `zero_real` is 0.0, and `truncated` is `value as i64`, by its 64 bits.
module _ (F : F64) (zero_real : F64.Carrier F) (truncated : F64.Carrier F → I64) where
  pub record DigitalNetwork : Type 0 where
    pub comb : Pass F
    pub arrays : Arrays F
    pub params : List F.Carrier
    pub ports : NetworkPorts F
    pub cone_nets : List DigitalNet
    pub abstime : F.Carrier
    pub source : ℕ
    pub settle_cap : ℕ

  -- The sizes of the banks: integers, reals, parameters.
  unfoldable pub bank_sizes : List (NetworkMember F) → ℕ × ℕ × ℕ
  bank_sizes [] = (0, 0, 0)
  bank_sizes (m ∷ ms) =
      let (ints, reals, params) = bank_sizes ms in
      let layout = layout_of m.body in
      (
        max_of (m.int_base + layout.num_int) ints,
        max_of (m.real_base + layout.num_real) reals,
        max_of (m.param_base + length m.params) params,
      )

  unfoldable pub write_params : ℕ → List F.Carrier → List F.Carrier → Option (List F.Carrier)
  write_params i [] bank = some bank
  write_params i (v ∷ vs) bank =
      and_then (write_at bank i v) (λ bank'. write_params (suc i) vs bank')

  unfoldable pub all_params : List (NetworkMember F) → List F.Carrier → Option (List F.Carrier)
  all_params [] bank = some bank
  all_params (m ∷ ms) bank =
      and_then (write_params m.param_base m.params bank) (λ bank'. all_params ms bank')

  -- A power-on value goes to the real bank, or else to the integer bank, or nowhere.
  unfoldable pub write_init : NetworkMember F → ℕ × F.Carrier → Arrays F → Option (Arrays F)
  write_init m (var, value) a = elim (lookup (DigitalLayout.real_slot (layout_of m.body)) var) [
    | some slot ↦
        and_then (write_at a.vars_real (m.real_base + slot) value)
          (λ bank. some (record a { vars_real = bank }))
    | none ↦ elim (lookup (DigitalLayout.int_slot (layout_of m.body)) var) [
      | some slot ↦
          and_then (write_at a.vars_int (m.int_base + slot) (truncated value))
            (λ bank. some (record a { vars_int = bank }))
      | none ↦ some a
    ]
  ]

  unfoldable pub write_inits : NetworkMember F → List (ℕ × F.Carrier) → Arrays F → Option (Arrays F)
  write_inits m [] a = some a
  write_inits m (i ∷ is) a = and_then (write_init m i a) (λ a'. write_inits m is a')

  unfoldable pub all_inits : List (NetworkMember F) → Arrays F → Option (Arrays F)
  all_inits [] a = some a
  all_inits (m ∷ ms) a = and_then (write_inits m m.reg_inits a) (λ a'. all_inits ms a')

  -- `comb` is what `NetworkComb::compile` makes of the members, or none if it fails.
  unfoldable pub build : Option (Pass F) → List (NetworkMember F) → ℕ → ℕ → Option DigitalNetwork
  build comb members net_count source =
      let (ints, reals, param_count) = bank_sizes members in
      and_then comb (λ pass.
        and_then (all_params members (replicate param_count zero_real)) (λ params.
          and_then
            (all_inits members (record {
              nets = replicate net_count (to_quad LogicValue.x);
              vars_int = replicate ints (to_quad LogicValue.x);
              vars_real = replicate reals zero_real;
            }))
            (λ arrays. some (record {
              comb = pass;
              arrays = arrays;
              params = params;
              ports = ports_of F members;
              cone_nets = cone_of F members;
              abstime = zero_real;
              source = source;
              settle_cap = length members + 2;
            }))))

  unfoldable pub run_once : DigitalNetwork → DigitalNetwork
  run_once s = record s { arrays = s.comb s.params s.abstime s.arrays }

  unfoldable pub driven_now : DigitalNetwork → Option (List ℕ)
  driven_now s = read_nets s.arrays.nets s.ports.outputs

  unfoldable pub settle_loop : ℕ → DigitalNetwork → Option DigitalNetwork
  settle_loop zero s = some s
  settle_loop (suc turns) s =
      let again = settle_loop turns (run_once s) in
      and_then (driven_now s) (λ before.
        and_then (driven_now (run_once s))
          (λ after. if quads_eq after before then some (run_once s) else again))

  unfoldable pub settle : DigitalNetwork → Option DigitalNetwork
  settle s = settle_loop s.settle_cap s

  -- The calls of `sink.emit` of `init`.
  unfoldable pub publish_all : List ℕ → List DigitalNet → Option (List (Emission F))
  publish_all nets [] = some []
  publish_all nets (n ∷ ns) = and_then (get_elem? nets n) (λ q.
      and_then (publish_all nets ns)
        (λ es. some (record { net = n; value = from_quad q; delay = zero_real } ∷ es)))

  unfoldable pub init : DigitalNetwork → Option (DigitalNetwork × List (Emission F))
  init s =
      and_then (settle s)
        (λ s'. and_then (publish_all s'.arrays.nets s'.ports.outputs) (λ es. some (s', es)))

  unfoldable pub sync : List LogicValue → List DigitalNet → List ℕ → Option (List ℕ)
  sync view [] nets = some nets
  sync view (n ∷ ns) nets =
      and_then (get_elem? view n)
        (λ v. and_then (write_at nets n (to_quad v)) (λ nets'. sync view ns nets'))

  unfoldable pub publish_changed :
      List LogicValue → List ℕ → List DigitalNet → Option (List (Emission F))
  publish_changed view nets [] = some []
  publish_changed view nets (n ∷ ns) = and_then (get_elem? nets n) (λ q.
      and_then (get_elem? view n) (λ old. and_then (publish_changed view nets ns) (λ es. some (
        if value_eq (from_quad q) old
        then es
        else record { net = n; value = from_quad q; delay = zero_real } ∷ es))))

  unfoldable pub comb_phase :
      EvalCtx F → DigitalNetwork → Option (DigitalNetwork × List (Emission F))
  comb_phase ctx s = and_then (sync ctx.nets s.cone_nets s.arrays.nets) (λ nets.
      and_then
        (settle (record s { abstime = ctx.time; arrays = record (s.arrays) { nets = nets } }))
        (λ s'.
          and_then (publish_changed ctx.nets s'.arrays.nets s'.ports.outputs)
            (λ es. some (s', es))))
