-- ===== src/Analog/Once.antt =====
-- How often `collect_branches` of piperine-codegen/src/resolve/diff.rs lists a branch.
use piperine.Common.{
  subst, ℕ, ◌≡◌, refl, inl, inr, false, ◌&&◌, Option, [], ◌∷◌, ◌++◌, Text, if◌then◌else◌, ◌==◌, ◌+◌,
  ◌≤◌, Bool-cases, arith,
}
use piperine.Analog.Ast.{Expr, ident, call}
use piperine.Analog.Diff.{Node, is_access}
use piperine.Analog.Walk.{
  Branches, has_branch, push_new, collect_call, collect_at, collect_branches,
}
use piperine.Analog.Keeps.{keep_expr}

unfoldable pub occurrences : Branches → Node → Node → ℕ
occurrences [] p m = 0
occurrences ((a, b) ∷ rest) p m = (if a == p && b == m then 1 else 0) + occurrences rest p m

-- No branch is listed twice.
abbrev pub Once : Branches → Type 0
Once out = (p m : Node) → occurrences out p m ≤ 1

occurrences-append :
    (out : Branches) (a b p m : Node)
    → occurrences (out ++ (a, b) ∷ []) p m
      ≡ occurrences out p m + (if a == p && b == m then 1 else 0)
unfolding occurrences
occurrences-append [] a b p m = ground arith
occurrences-append ((c, d) ∷ out) a b p m = ground (arith, occurrences-append out a b p m)

absent : (out : Branches) (p m : Node) → has_branch out p m ≡ false → occurrences out p m ≡ 0
unfolding occurrences has_branch
absent [] p m h = refl
absent ((c, d) ∷ out) p m h = ground (arith, absent out p m)

one_more :
    (out : Branches) (a b p m : Node)
    → Once out
    → has_branch out a b ≡ false
    → occurrences (out ++ (a, b) ∷ []) p m ≤ 1
one_more out a b p m once h = elim (Bool-cases (a == p && b == m)) [
  | inl same ↦
      let left : a ≡ p = ground arith in
      let right : b ≡ m = ground arith in
      let none_yet : occurrences out p m ≡ 0 =
        subst (λ x. occurrences out x m ≡ 0) left
          (subst (λ x. occurrences out a x ≡ 0) right (absent out a b h)) in
      rw (occurrences-append out a b p m, same, none_yet) (omega arith)
  | inr other ↦ rw (occurrences-append out a b p m, other) (let k = once p m in omega arith)
]

push_new-Once : (out : Branches) (a b : Node) → Once out → Once (push_new out a b)
unfolding push_new
push_new-Once out a b once p m = elim (Bool-cases (has_branch out a b)) [
  | inl k ↦ rw k (once p m)
  | inr k ↦ rw k (one_more out a b p m once k)
]

module _ (resolve_node : Text → Option Node) where
  collect_at-Once : (e : Expr) (out : Branches) → Once out → Once (collect_at resolve_node e out).0
  unfolding collect_at collect_call
  collect_at-Once (call (ident name) args) out once p m = elim (Bool-cases (is_access name)) [
    | inl a ↦ rw a (push_new-Once out _ _ once p m)
    | inr a ↦ rw a (once p m)
  ]
  collect_at-Once e out once p m = once p m

-- If no branch is listed twice in a list, collect_branches, which adds to it the branches of an
-- expression, returns a list in which no branch is listed twice.
pub collect_branches-Once :
    (resolve_node : Text → Option Node) (e : Expr) (out : Branches)
    → Once out
    → Once (collect_branches resolve_node e out)
unfolding collect_branches
collect_branches-Once resolve_node e out once =
    keep_expr (collect_at resolve_node) Once (collect_at-Once resolve_node) e out once
