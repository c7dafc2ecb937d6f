-- ===== src/Common/Ascii.antt =====
-- ASCII text as a list of codes, and `usize` in decimal.
use Prim.Native.Nat.{ℕ, zero, suc, ◌+◌, ◌-◌, ◌*◌, ◌/◌, ◌%◌, ◌<◌}
use mathlib.Core.Path.{◌≡◌, refl, ap, sym, ◌∙◌}
use mathlib.Core.List.{List, [], ◌∷◌, ◌++◌}
use mathlib.Core.Logic.{inl, inr}
use native.Mathlib.Omega.{arith}
use piperine.Common.Tests.{if◌then◌else◌, ltb, Bool-cases}

abbrev pub Text : Type 0
Text = List ℕ

-- The digits of `n`, most significant first, on fuel.
decimal_loop : ℕ → ℕ → Text
decimal_loop zero n = []
decimal_loop (suc fuel) n =
    let digit : Text = (48 + n % 10) ∷ [] in
    let rest = decimal_loop fuel (n / 10) in if ltb n 10 then digit else rest ++ digit

unfoldable pub decimal : ℕ → Text
unfolding decimal_loop
decimal n = decimal_loop (suc n) n

-- The number that digits stand for, behind the digits read so far.
value : ℕ → Text → ℕ
value acc [] = acc
value acc (c ∷ cs) = value (acc * 10 + (c - 48)) cs

value-snoc : (acc : ℕ) (cs : Text) (c : ℕ) → value acc (cs ++ c ∷ []) ≡ value acc cs * 10 + (c - 48)
unfolding value
value-snoc acc [] c = refl
value-snoc acc (d ∷ cs) c = value-snoc (acc * 10 + (d - 48)) cs c

value-decimal_loop : (fuel n : ℕ) → n < fuel → value 0 (decimal_loop fuel n) ≡ n
unfolding decimal_loop value
value-decimal_loop zero n h = elim h [ ]
value-decimal_loop (suc fuel) n h = elim (Bool-cases (ltb n 10)) [
  | inl small ↦ rw small (ground arith)
  | inr big ↦ rw big (
      value-snoc 0 (decimal_loop fuel (n / 10)) (48 + n % 10)
      ∙ ground (arith, value-decimal_loop fuel (n / 10)))
]

-- Different numbers print differently.
pub decimal_injective : (m n : ℕ) → decimal m ≡ decimal n → m ≡ n
unfolding decimal
decimal_injective m n e =
    sym (value-decimal_loop (suc m) m (omega arith))
    ∙ ap (value 0) e
    ∙ value-decimal_loop (suc n) n (omega arith)
