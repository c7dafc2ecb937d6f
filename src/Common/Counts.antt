-- ===== src/Common/Counts.antt =====
-- Lists as multisets, seen through the number of entries that pass a Boolean test.
use Prim.Native.Nat.{ℕ, ◌+◌, ◌≤◌, ◌<◌}
use mathlib.Core.Logic.{◌↔◌, inl, inr}
use mathlib.Core.Path.{◌≡◌, refl, ap}
use mathlib.Core.Bool.{Bool, true, false, not, ◌&&◌, ◌||◌}
use mathlib.Core.List.{List, [], ◌∷◌, ◌++◌}
use native.Mathlib.Omega.{arith}
use piperine.Common.Tests.{if◌then◌else◌, Bool-cases}
use piperine.Common.Lists.{length}

abbrev pub bit : Bool → ℕ
bit true = 1
bit false = 0

bit-split : (a b : Bool) → bit (a && b) + bit (a && not b) ≡ bit a
bit-split a b = ground arith

bit_mono : (a b : Bool) → (a ≡ true → b ≡ true) → bit a ≤ bit b
bit_mono a b h = ground arith

module _ {ℓ} {A : Type ℓ} where
  abbrev pub count_p : (A → Bool) → List A → ℕ
  count_p p [] = 0
  count_p p (x ∷ xs) = bit (p x) + count_p p xs

  -- Two lists hold the same entries, each as often.
  abbrev pub SameItems : List A → List A → Type ℓ
  SameItems xs ys = (p : A → Bool) → count_p p xs ≡ count_p p ys

  -- Every entry passes the test.
  abbrev pub Every : (A → Bool) → List A → Type 0
  Every p xs = count_p (λ x. not (p x)) xs ≡ 0

  pub count_p-append :
      (p : A → Bool) (xs ys : List A) → count_p p (xs ++ ys) ≡ count_p p xs + count_p p ys
  count_p-append p [] ys = omega arith
  count_p-append p (x ∷ xs) ys = omega (arith, count_p-append p xs ys)

  pub count_p-congr :
      (p q : A → Bool) (xs : List A) → ((x : A) → p x ≡ q x) → count_p p xs ≡ count_p q xs
  count_p-congr p q [] h = refl
  count_p-congr p q (x ∷ xs) h = omega (arith, ap bit (h x), count_p-congr p q xs h)

  pub count_p-false : (xs : List A) → count_p (λ _. false) xs ≡ 0
  count_p-false [] = refl
  count_p-false (x ∷ xs) = omega (arith, count_p-false xs)

  pub count_p-true : (xs : List A) → count_p (λ _. true) xs ≡ length xs
  count_p-true [] = refl
  count_p-true (x ∷ xs) = omega (arith, count_p-true xs)

  -- A second test splits a count in two.
  pub count_p-split :
      (p q : A → Bool) (xs : List A)
      → count_p (λ x. p x && q x) xs + count_p (λ x. p x && not (q x)) xs ≡ count_p p xs
  count_p-split p q [] = refl
  count_p-split p q (x ∷ xs) = omega (arith, bit-split (p x) (q x), count_p-split p q xs)

  pub count_p_mono :
      (p q : A → Bool) (xs : List A)
      → ((x : A) → p x ≡ true → q x ≡ true)
      → count_p p xs ≤ count_p q xs
  count_p_mono p q [] h = omega arith
  count_p_mono p q (x ∷ xs) h = omega (arith, bit_mono (p x) (q x) (h x), count_p_mono p q xs h)

  -- Rust's `retain` and `filter`, by a Boolean test.
  abbrev pub retain : (A → Bool) → List A → List A
  retain q [] = []
  retain q (x ∷ xs) = let rest = retain q xs in if q x then x ∷ rest else rest

  pub count_p-retain :
      (p q : A → Bool) (xs : List A) → count_p p (retain q xs) ≡ count_p (λ x. p x && q x) xs
  count_p-retain p q [] = refl
  count_p-retain p q (x ∷ xs) = ground (arith, count_p-retain p q xs)

  pub Every-mono :
      (p q : A → Bool) (xs : List A) → ((x : A) → p x ≡ true → q x ≡ true) → Every p xs → Every q xs
  Every-mono p q xs h e =
      omega (arith, count_p_mono (λ x. not (q x)) (λ x. not (p x)) xs (λ x n. contra x n))
    where
      contra : (x : A) → not (q x) ≡ true → not (p x) ≡ true
      contra x n = ground (arith, h x)

  -- `contains`, by the equality `eq`.
  abbrev pub contains : (A → A → Bool) → List A → A → Bool
  contains eq [] a = false
  contains eq (x ∷ xs) a = eq a x || contains eq xs a

module _ {ℓ} {A : Type ℓ} (eq : A → A → Bool) (eq_iff : (a b : A) → (eq a b ≡ true) ↔ (a ≡ b)) where
  -- With an equality test, a test that every member passes is passed by every entry.
  pub Every-of_members :
      (p : A → Bool) (xs : List A) → ((a : A) → 0 < count_p (eq a) xs → p a ≡ true) → Every p xs
  Every-of_members p [] h = refl
  Every-of_members p (x ∷ xs) h =
      ground (arith, h x, eq_iff x x, Every-of_members p xs (λ a m. h a (omega arith)))

  pub contains_iff : (xs : List A) (a : A) → (contains eq xs a ≡ true) ↔ (0 < count_p (eq a) xs)
  contains_iff [] a = ground arith
  contains_iff (x ∷ xs) a = ground (arith, contains_iff xs a)

  -- Among the entries equal to `a` a test keeps all or none.
  pub count_p-eq :
      (a : A) (p : A → Bool) (xs : List A)
      → count_p (λ x. eq a x && p x) xs ≡ (if p a then count_p (eq a) xs else 0)
  count_p-eq a p [] = ground arith
  count_p-eq a p (x ∷ xs) = elim (Bool-cases (eq a x)) [
    | inl e ↦ ground (arith, count_p-eq a p xs, ap p ((eq_iff a x).0 e))
    | inr e ↦ ground (arith, count_p-eq a p xs)
  ]

  -- Two tests that agree on the members count alike.
  pub count_p-congr_members :
      (p q : A → Bool) (xs : List A)
      → ((a : A) → 0 < count_p (eq a) xs → p a ≡ q a)
      → count_p p xs ≡ count_p q xs
  count_p-congr_members p q [] h = refl
  count_p-congr_members p q (x ∷ xs) h = omega (
    arith,
    ap bit (h x (omega (arith, ap bit ((eq_iff x x).1 refl)))),
    count_p-congr_members p q xs (λ a m. h a (omega arith)),
  )

  pub contains-retain :
      (p : A → Bool) (xs : List A) (a : A) → contains eq (retain p xs) a ≡ (p a && contains eq xs a)
  contains-retain p xs a = ground (
    arith,
    contains_iff (retain p xs) a,
    contains_iff xs a,
    count_p-retain (eq a) p xs,
    count_p-eq a p xs,
  )
