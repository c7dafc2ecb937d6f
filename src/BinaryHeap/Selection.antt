-- ===== src/BinaryHeap/Selection.antt =====
-- A heap by selection, which shows that the laws of `BinaryHeap` can be met and runs the tests: the
-- entries stand in the order of insertion, and `pop` looks for a least one.
use piperine.Common.{
  ◌≡◌, refl, subst, Bool, true, ◌⊎◌, List, [], ◌∷◌, Option, none, some, SameItems, Every, arith,
  if◌then◌else◌,
}
use piperine.BinaryHeap.{BinaryHeap}

module _ {ℓ} {E : Type ℓ} (leq : E → E → Bool) where
  choose : E → E × List E → E × List E
  choose x (m, rest) = if leq x m then (x, m ∷ rest) else (m, x ∷ rest)

  -- a least entry of `x ∷ xs`, and the others
  select : E → List E → E × List E
  select x [] = (x, [])
  select x (y ∷ ys) = choose x (select y ys)

  choose_same :
      (x : E) (t : E × List E) → SameItems (x ∷ t.0 ∷ t.1) ((choose x t).0 ∷ (choose x t).1)
  unfolding choose
  choose_same x (m, rest) p = ground arith

  select_same : (x : E) (xs : List E) → SameItems (x ∷ xs) ((select x xs).0 ∷ (select x xs).1)
  unfolding select
  select_same x [] p = refl
  select_same x (y ∷ ys) p = omega (arith, select_same y ys p, choose_same x (select y ys) p)

  pub pop_list : List E → Option (E × List E)
  pop_list [] = none
  pop_list (x ∷ xs) = some (select x xs)

module _ {ℓ} {E : Type ℓ} (leq : E → E → Bool)
    (total : (a b : E) → (leq a b ≡ true) ⊎ (leq b a ≡ true))
    (trans : (a b c : E) → leq a b ≡ true → leq b c ≡ true → leq a c ≡ true) where
  Every-down : (a b : E) (xs : List E) → leq a b ≡ true → Every (leq b) xs → Every (leq a) xs
  Every-down a b [] h e = refl
  Every-down a b (x ∷ xs) h e = ground (arith, trans a b x, Every-down a b xs h)

  choose_least :
      (x : E) (t : E × List E) (ys : List E)
      → Every (leq t.0) ys
      → Every (leq (choose leq x t).0) (x ∷ ys)
  unfolding choose
  choose_least x (m, rest) ys h = ground (arith, total x x, total x m, Every-down x m ys)

  select_least : (x : E) (xs : List E) → Every (leq (select leq x xs).0) (x ∷ xs)
  unfolding select
  select_least x [] = ground (arith, total x x)
  select_least x (y ∷ ys) = choose_least x (select leq y ys) (y ∷ ys) (select_least y ys)

  pub pop_list-none : (xs : List E) → pop_list leq xs ≡ none → xs ≡ []
  unfolding pop_list
  pop_list-none [] e = refl
  pop_list-none (x ∷ xs) e = cc

  pub pop_list_same :
      (xs ys : List E) (e : E) → pop_list leq xs ≡ some (e, ys) → SameItems xs (e ∷ ys)
  unfolding pop_list
  pop_list_same [] ys e h p = cc
  pop_list_same (x ∷ xs) ys e h p = ground (arith, select_same leq x xs p)

  pub pop_list_least : (xs ys : List E) (e : E) → pop_list leq xs ≡ some (e, ys) → Every (leq e) xs
  unfolding pop_list
  pop_list_least [] ys e h = cc
  pop_list_least (x ∷ xs) ys e h =
      subst (λ m. Every (leq m) (x ∷ xs)) (ground arith) (select_least x xs)

  unfoldable pub selection : BinaryHeap E leq
  unfolding pop_list select choose
  selection = record {
    Heap = List E;
    new = [];
    push = λ h e. e ∷ h;
    pop = pop_list leq;
    items = λ h. h;
    items-new = refl;
    items-push = λ h e p. refl;
    pop_none = pop_list-none;
    pop_some = pop_list_same;
    pop_least = pop_list_least;
  }
