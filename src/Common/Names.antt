-- ===== src/Common/Names.antt =====
-- Text literals as lists of codes, and comparison of texts.
use Prim.Native.Char.{code}
use Prim.Native.String.{String}
use mathlib.Core.Path.{◌≡◌, refl}
use mathlib.Core.List.{[], ◌∷◌}
use mathlib.Core.Bool.{Bool, true, false, ◌&&◌}
use native.Mathlib.Omega.{arith}
use piperine.Common.Tests.{◌==◌}
use piperine.Common.Ascii.{Text}

abbrev pub codes : String → Text
codes String.[] = []
codes (String.◌∷◌ c s) = code c ∷ codes s

unfoldable pub text_eq : Text → Text → Bool
text_eq [] [] = true
text_eq [] (d ∷ ds) = false
text_eq (c ∷ cs) [] = false
text_eq (c ∷ cs) (d ∷ ds) = c == d && text_eq cs ds

unfoldable pub starts_with : Text → Text → Bool
starts_with s [] = true
starts_with [] (p ∷ prefix) = false
starts_with (c ∷ s) (p ∷ prefix) = c == p && starts_with s prefix

pub text_eq_to : (a b : Text) → text_eq a b ≡ true → a ≡ b
unfolding text_eq
text_eq_to [] [] h = refl
text_eq_to [] (d ∷ ds) h = cc
text_eq_to (c ∷ cs) [] h = cc
text_eq_to (c ∷ cs) (d ∷ ds) h =
    let head : c ≡ d = ground arith in let tail : cs ≡ ds = text_eq_to cs ds (ground arith) in cc

pub text_eq_refl : (a : Text) → text_eq a a ≡ true
unfolding text_eq
text_eq_refl [] = refl
text_eq_refl (c ∷ cs) = ground (arith, text_eq_refl cs)
