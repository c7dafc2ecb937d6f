-- ===== src/Analog/Collected.antt =====
-- Lemmas on the branches that `collect_branches` of piperine-codegen/src/resolve/diff.rs finds.
use piperine.Common.{
  ◌≡◌, refl, ◌∙◌, inl, inr, true, false, ◌&&◌, ◌||◌, Option, [], ◌∷◌, ◌++◌, Text, ◌==◌, Bool-cases,
  arith,
}
use piperine.Analog.Ast.{Expr, ident, call, Exprs, Block, Stmts}
use piperine.Analog.Diff.{Node, is_access, node_or_ground, nth_expr}
use piperine.Analog.Walk.{
  descend, walk, walk_list, walk_block, walk_stmts, Branches, has_branch, push_new, collect_call,
  collect_at, collect_branches,
}
use piperine.Analog.Keeps.{keep_expr, keep_block, keep_stmts, keep_list}

has_branch-append :
    (out : Branches) (a b p m : Node)
    → has_branch (out ++ (a, b) ∷ []) p m ≡ (has_branch out p m || (a == p && b == m))
unfolding has_branch
has_branch-append [] a b p m = ground arith
has_branch-append ((c, d) ∷ out) a b p m = ground (arith, has_branch-append out a b p m)

push_new_grows :
    (out : Branches) (a b p m : Node)
    → has_branch out p m ≡ true
    → has_branch (push_new out a b) p m ≡ true
unfolding push_new
push_new_grows out a b p m h = elim (Bool-cases (has_branch out a b)) [
  | inl k ↦ rw k h
  | inr k ↦ rw k (has_branch-append out a b p m ∙ ground arith)
]

pub push_new_holds : (out : Branches) (a b : Node) → has_branch (push_new out a b) a b ≡ true
unfolding push_new
push_new_holds out a b = elim (Bool-cases (has_branch out a b)) [
  | inl k ↦ rw k k
  | inr k ↦ rw k (has_branch-append out a b a b ∙ ground arith)
]

module _ (resolve_node : Text → Option Node) (p m : Node) where
  abbrev Has : Branches → Type 0
  Has out = has_branch out p m ≡ true

  collect_at_grows : (e : Expr) (out : Branches) → Has out → Has (collect_at resolve_node e out).0
  unfolding collect_at collect_call
  collect_at_grows (call (ident name) args) out h = elim (Bool-cases (is_access name)) [
    | inl a ↦ rw a (push_new_grows out _ _ p m h)
    | inr a ↦ rw a h
  ]
  collect_at_grows e out h = h

  pub expr_grows : (e : Expr) (out : Branches) → Has out → Has (collect_branches resolve_node e out)
  unfolding collect_branches
  expr_grows e out h = keep_expr (collect_at resolve_node) Has collect_at_grows e out h

  pub list_grows :
      (es : Exprs) (out : Branches) → Has out → Has (walk_list (collect_at resolve_node) es out)
  list_grows es out h = keep_list (collect_at resolve_node) Has collect_at_grows es out h

  pub block_grows :
      (b : Block) (out : Branches) → Has out → Has (walk_block (collect_at resolve_node) b out)
  block_grows b out h = keep_block (collect_at resolve_node) Has collect_at_grows b out h

  pub stmts_grows :
      (ss : Stmts) (out : Branches) → Has out → Has (walk_stmts (collect_at resolve_node) ss out)
  stmts_grows ss out h = keep_stmts (collect_at resolve_node) Has collect_at_grows ss out h

module _ (resolve_node : Text → Option Node) where
  abbrev C : Expr → Branches → Branches
  C e out = collect_branches resolve_node e out

  pub collect_called :
      (name : Text) (args : Exprs) (out : Branches)
      → is_access name ≡ false
      → C (call (ident name) args) out ≡ walk_list (collect_at resolve_node) args out
  unfolding collect_branches walk collect_at collect_call descend
  collect_called name args out h = rw (h, collect_call) refl

  pub collect_access :
      (name : Text) (args : Exprs) (out : Branches)
      → is_access name ≡ true
      → C (call (ident name) args) out
        ≡ push_new out
            (node_or_ground resolve_node (nth_expr args 0))
            (node_or_ground resolve_node (nth_expr args 1))
  unfolding collect_branches walk collect_at collect_call descend
  collect_access name args out h = rw (h, collect_call) refl
