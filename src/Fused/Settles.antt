-- ===== src/Fused/Settles.antt =====
-- How the fused pass is repeated.
use piperine.Common.{
  ℕ, zero, suc, ◌≤◌, ◌≡◌, ◌≢◌, ◌⊎◌, refl, sym, ap, ◌∙◌, inl, inr, true, List, [], ◌∷◌, Option, none,
  some, Bool-cases, arith, length, get_elem?,
}
use piperine.F64.{F64}
use piperine.Digital.Event.{DigitalNet}
use piperine.Fused.{and_then}
use piperine.Fused.Network.{
  I64, DigitalNetwork, quads_eq, read_nets, run_once, driven_now, settle_loop, settle,
}

pub none-some {ℓ} : {A : Type ℓ} {a : A} → none ≢ some a
none-some h = cc

pub some_injective {ℓ} : {A : Type ℓ} {a b : A} → some a ≡ some b → a ≡ b
some_injective h = cc

-- Both halves of a chain that gives a result give one.
pub and_then-some {ℓ} :
    {A B : Type ℓ} (o : Option A) (f : A → Option B) {b : B}
    → and_then o f ≡ some b
    → (a : A) × (o ≡ some a) × (f a ≡ some b)
unfolding and_then
and_then-some none f h = absurd (none-some h)
and_then-some (some a) f h = (a, refl, h)

length-read_nets {ℓ} :
    {A : Type ℓ} (values : List A) (ns : List DigitalNet) (vs : List A)
    → read_nets values ns ≡ some vs
    → length vs ≡ length ns
unfolding read_nets
length-read_nets values [] vs h = sym (ap length (some_injective h))
length-read_nets values (n ∷ ns) vs h =
    let (v, e, rest) = and_then-some (get_elem? values n) _ h in
    let (ws, f, done) = and_then-some (read_nets values ns) _ rest in
    sym (ap length (some_injective done)) ∙ ap suc (length-read_nets values ns ws f)

quads_eq-equal : (xs ys : List ℕ) → length xs ≡ length ys → quads_eq xs ys ≡ true → xs ≡ ys
unfolding quads_eq
quads_eq-equal [] [] h k = refl
quads_eq-equal [] (y ∷ ys) h k = absurd (omega arith)
quads_eq-equal (x ∷ xs) [] h k = absurd (omega arith)
quads_eq-equal (x ∷ xs) (y ∷ ys) h k =
    let head : x ≡ y = ground arith in
    let tail : xs ≡ ys = quads_eq-equal xs ys (omega arith) (ground arith) in cc

module _ {F : F64} (zero_real : F64.Carrier F) (truncated : F64.Carrier F → I64) where
  -- `k` passes, one after the other.
  unfoldable pub passes :
      ℕ → DigitalNetwork F zero_real truncated → DigitalNetwork F zero_real truncated
  passes zero s = s
  passes (suc k) s = passes k (run_once F zero_real truncated s)

  -- The last pass left every driven net as it found it.
  abbrev pub Stable :
      ℕ → DigitalNetwork F zero_real truncated → DigitalNetwork F zero_real truncated → Type 0
  Stable k s s' =
      (j : ℕ) × (k ≡ suc j)
      × (driven_now F zero_real truncated (passes j s) ≡ driven_now F zero_real truncated s')

  driven_length :
      (s : DigitalNetwork F zero_real truncated) (before after : List ℕ)
      → driven_now F zero_real truncated s ≡ some before
      → driven_now F zero_real truncated (run_once F zero_real truncated s) ≡ some after
      → length after ≡ length before
  unfolding driven_now run_once
  driven_length s before after b a =
      length-read_nets _ s.ports.outputs after a
      ∙ sym (length-read_nets s.arrays.nets s.ports.outputs before b)

  later :
      (k turns : ℕ) (s s' : DigitalNetwork F zero_real truncated)
      → (k ≡ turns) ⊎ Stable k (run_once F zero_real truncated s) s'
      → (suc k ≡ suc turns) ⊎ Stable (suc k) s s'
  unfolding passes
  later k turns s s' (inl e) = inl (ap suc e)
  later k turns s s' (inr (j, e, stable)) = inr (suc j, ap suc e, stable)

  settle_loop-passes :
      (turns : ℕ) (s s' : DigitalNetwork F zero_real truncated)
      → settle_loop F zero_real truncated turns s ≡ some s'
      → (k : ℕ) × (k ≤ turns) × (s' ≡ passes k s) × ((k ≡ turns) ⊎ Stable k s s')
  unfolding settle_loop passes
  settle_loop-passes zero s s' h = (0, omega arith, sym (some_injective h), inl refl)
  settle_loop-passes (suc turns) s s' h =
      let (before, b, rest) = and_then-some (driven_now F zero_real truncated s) _ h in
      let next = run_once F zero_real truncated s in
      let (after, a, tail) = and_then-some (driven_now F zero_real truncated next) _ rest in
      elim (Bool-cases (quads_eq after before)) [
        | inl q ↦
            let reached : next ≡ s' = some_injective (rw q at tail) in
            let same : after ≡ before =
              quads_eq-equal after before (driven_length s before after b a) q in
            (
              1,
              omega arith,
              sym reached,
              inr (
                0,
                refl,
                b ∙ ap some (sym same) ∙ sym a ∙ ap (driven_now F zero_real truncated) reached,
              ),
            )
        | inr q ↦
            let (k, le, e, ends) = settle_loop-passes turns next s' (rw q at tail) in
            (suc k, omega arith, e, later k turns s s' ends)
      ]

  -- A cone whose settling ends was evaluated by whole passes, at most as many as the cap; and if by fewer,
  -- then the last one changed no driven net.
  pub settle-passes :
      (s s' : DigitalNetwork F zero_real truncated)
      → settle F zero_real truncated s ≡ some s'
      → (k : ℕ) × (k ≤ s.settle_cap) × (s' ≡ passes k s) × ((k ≡ s.settle_cap) ⊎ Stable k s s')
  unfolding settle
  settle-passes s s' h = settle_loop-passes s.settle_cap s s' h
