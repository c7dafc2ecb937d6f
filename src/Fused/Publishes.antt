-- ===== src/Fused/Publishes.antt =====
-- What a cone publishes brings the scheduler's nets in line with its own.
use piperine.Common.{
  ℕ, ◌≡◌, ◌⊎◌, refl, sym, ap, ◌∙◌, inl, inr, ◌||◌, List, [], ◌∷◌, Option, some, if◌then◌else◌, ◌==◌,
  ltb, Bool-cases, arith, length, get_elem?, set, get_elem?-set, get_elem?-none,
}
use piperine.F64.{F64}
use piperine.Digital.Logic.{LogicValue, value_eq, value_eq_iff}
use piperine.Digital.Event.{DigitalNet}
use piperine.Digital.Interface.{EvalCtx, Emission, contains_net}
use piperine.Fused.{and_then, from_quad}
use piperine.Fused.Network.{I64, DigitalNetwork, publish_changed, comb_phase, sync, settle}
use piperine.Fused.Settles.{and_then-some, some_injective, none-some}

module _ {F : F64} where
  -- The nets of the scheduler after the emissions, in their order.
  unfoldable pub apply_all : List (Emission F) → List LogicValue → List LogicValue
  apply_all [] view = view
  apply_all (e ∷ es) view = apply_all es (set view e.net e.value)

-- The cone's value of a net.
abbrev pub shown : List ℕ → DigitalNet → Option LogicValue
shown nets j = and_then (get_elem? nets j) (λ q. some (from_quad q))

set-present :
    (base : List LogicValue) (n j : DigitalNet) (old v : LogicValue)
    → get_elem? base n ≡ some old
    → get_elem? (set base n v) j ≡ (if n == j then some v else get_elem? base j)
set-present base n j old v h = elim (Bool-cases (ltb j (length base))) [
  | inl b ↦ get_elem?-set base n j v ∙ ground arith
  | inr b ↦ elim (Bool-cases (n == j)) [
    | inl e ↦
        let same : n ≡ j = ground arith in
        absurd (none-some (sym (get_elem?-none base n (ground arith)) ∙ h))
    | inr e ↦ get_elem?-set base n j v ∙ ground arith
  ]
]

-- Every net shows what it did, or the cone's value.
abbrev Between : List LogicValue → List ℕ → List LogicValue → Type 0
Between view nets base =
    (j : DigitalNet) → (get_elem? base j ≡ get_elem? view j) ⊎ (get_elem? base j ≡ shown nets j)

Between-shown :
    (view : List LogicValue) (nets : List ℕ) (base : List LogicValue) (n : DigitalNet)
    (v : LogicValue)
    → get_elem? view n ≡ some v
    → shown nets n ≡ some v
    → Between view nets base
    → get_elem? base n ≡ some v
Between-shown view nets base n v a b between = elim (between n) [ inl e ↦ e ∙ a | inr e ↦ e ∙ b ]

Between-present :
    (view : List LogicValue) (nets : List ℕ) (base : List LogicValue) (n : DigitalNet)
    (v w : LogicValue)
    → get_elem? view n ≡ some v
    → shown nets n ≡ some w
    → Between view nets base
    → (u : LogicValue) × (get_elem? base n ≡ some u)
Between-present view nets base n v w a b between = elim (between n) [
  | inl e ↦ (v, e ∙ a)
  | inr e ↦ (w, e ∙ b)
]

set-Between :
    (view : List LogicValue) (nets : List ℕ) (base : List LogicValue) (n : DigitalNet)
    (u w : LogicValue)
    → get_elem? base n ≡ some u
    → shown nets n ≡ some w
    → Between view nets base
    → Between view nets (set base n w)
set-Between view nets base n u w h b between j = elim (Bool-cases (n == j)) [
  | inl e ↦
      let same : n ≡ j = ground arith in
      inr (set-present base n j u w h ∙ rw e (sym b ∙ ap (shown nets) same))
  | inr e ↦
      let kept : get_elem? (set base n w) j ≡ get_elem? base j =
        set-present base n j u w h ∙ rw e refl in
      elim (between j) [ inl k ↦ inl (kept ∙ k) | inr k ↦ inr (kept ∙ k) ]
]

skipped :
    (nets : List ℕ) (ns : List DigitalNet) (base : List LogicValue) (n j : DigitalNet)
    → get_elem? base n ≡ shown nets n
    → (if contains_net ns j then shown nets j else get_elem? base j)
      ≡ (if n == j || contains_net ns j then shown nets j else get_elem? base j)
skipped nets ns base n j here = elim (Bool-cases (n == j)) [
  | inl e ↦
      let same : n ≡ j = ground arith in
      let there : get_elem? base j ≡ shown nets j =
        ap (get_elem? base) (sym same) ∙ here ∙ ap (shown nets) same in
      elim (Bool-cases (contains_net ns j)) [ inl c ↦ rw (e, c) refl | inr c ↦ rw (e, c) there ]
  | inr e ↦ rw e refl
]

emitted :
    (nets : List ℕ) (ns : List DigitalNet) (base : List LogicValue) (n j : DigitalNet)
    (u value : LogicValue)
    → get_elem? base n ≡ some u
    → shown nets n ≡ some value
    → (if contains_net ns j then shown nets j else get_elem? (set base n value) j)
      ≡ (if n == j || contains_net ns j then shown nets j else get_elem? base j)
emitted nets ns base n j u value hu new = elim (Bool-cases (n == j)) [
  | inl e ↦
      let same : n ≡ j = ground arith in
      let there : get_elem? (set base n value) j ≡ shown nets j =
        set-present base n j u value hu ∙ rw e (sym new ∙ ap (shown nets) same) in
      elim (Bool-cases (contains_net ns j)) [ inl c ↦ rw (e, c) refl | inr c ↦ rw (e, c) there ]
  | inr e ↦
      let kept : get_elem? (set base n value) j ≡ get_elem? base j =
        set-present base n j u value hu ∙ rw e refl in
      rw (e, kept) refl
]

module _ {F : F64} (zero_real : F64.Carrier F) (truncated : F64.Carrier F → I64)
    (view : List LogicValue) (nets : List ℕ) where
  applied :
      (ns : List DigitalNet) (es : List (Emission F)) (base : List LogicValue)
      → publish_changed F zero_real truncated view nets ns ≡ some es
      → Between view nets base
      → (j : DigitalNet)
      → get_elem? (apply_all es base) j
        ≡ (if contains_net ns j then shown nets j else get_elem? base j)
  unfolding publish_changed apply_all contains_net and_then
  applied [] es base h between j = ap (λ x. get_elem? (apply_all x base) j) (sym (some_injective h))
  applied (n ∷ ns) es base h between j =
      let (q, hq, rest) = and_then-some (get_elem? nets n) _ h in
      let (old, ho, rest') = and_then-some (get_elem? view n) _ rest in
      let (es', he, done) =
        and_then-some (publish_changed F zero_real truncated view nets ns) _ rest' in
      let value = from_quad q in
      let new : shown nets n ≡ some value = rw hq refl in
      elim (Bool-cases (value_eq value old)) [
        | inl same ↦
            let equal : value ≡ old = (value_eq_iff value old).0 same in
            let here : get_elem? base n ≡ shown nets n =
              Between-shown view nets base n value (ho ∙ ap some (sym equal)) new between
              ∙ sym new in
            rw (sym (some_injective (rw same at done)))
              (applied ns es' base he between j ∙ skipped nets ns base n j here)
        | inr differ ↦
            let (u, hu) = Between-present view nets base n old value ho new between in
            rw (sym (some_injective (rw differ at done))) (
              applied ns es' (set base n value) he
                (set-Between view nets base n u value hu new between) j
              ∙ emitted nets ns base n j u value hu new)
      ]

-- After the emissions of a call of comb_phase, every net that the cone drives shows the scheduler the
-- value that the cone settled on, and every other net what it showed before.
pub comb_phase_publishes :
    {F : F64} (zero_real : F64.Carrier F) (truncated : F64.Carrier F → I64) (ctx : EvalCtx F)
    (s s' : DigitalNetwork F zero_real truncated) (es : List (Emission F))
    → comb_phase F zero_real truncated ctx s ≡ some (s', es)
    → (j : DigitalNet)
    → get_elem? (apply_all es ctx.nets) j
      ≡ (if contains_net s'.ports.outputs j then shown s'.arrays.nets j else get_elem? ctx.nets j)
unfolding comb_phase
comb_phase_publishes {F} zero_real truncated ctx s s' es h j =
    let (nets, hn, rest) =
      and_then-some (sync F zero_real truncated ctx.nets s.cone_nets s.arrays.nets) _ h in
    let (settled, hs, rest') = and_then-some (settle F zero_real truncated _) _ rest in
    let (sent, he, done) =
      and_then-some
        (publish_changed F zero_real truncated ctx.nets settled.arrays.nets settled.ports.outputs) _
        rest' in
    let both = some_injective done in
    let state : settled ≡ s' = ap (λ p. p.0) both in
    let events : sent ≡ es = ap (λ p. p.1) both in
    rw (sym state, sym events)
      (applied zero_real truncated ctx.nets settled.arrays.nets settled.ports.outputs sent ctx.nets
        he (λ k. inl refl) j)
