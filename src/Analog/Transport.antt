-- ===== src/Analog/Transport.antt =====
-- The branches that `collect_branches` of piperine-codegen/src/resolve/diff.rs finds, and derivatives.
use piperine.Common.{
  ◌≡◌, refl, ap, ◌∙◌, subst, inl, inr, true, false, Bool-cases, Option-cases, Option, some, none,
  List, [], ◌∷◌, Text, codes, starts_with, if◌then◌else◌, get_elem?,
}
use piperine.Analog.Bits.{bits_zero}
use piperine.Analog.Ast.{
  Expr, sys_call, ident, unary, UnaryOp, binary, call, cast, block, if_expr, Exprs, no_exprs, exprs,
  no_expr, just_expr, Block, body, Stmt, Stmts, no_stmts, stmts, expr_stmt,
}
use piperine.Analog.Operators.{math_fn}
use piperine.Analog.Constructors.{lit, neg, d_binary, block_of}
use piperine.Analog.Diff.{
  Node, Tapes, rule_of, chain_rule, find_tape, is_access, is_limit, or_lit, node_or_ground,
  nth_expr, d_call, differentiate, d_args, block_deriv, d_stmts, d_stmt,
}
use piperine.Analog.Walk.{
  descend, walk, walk_list, walk_block, walk_stmts, walk_stmt, Branches, has_branch, collect_at,
  collect_branches,
}
use piperine.Analog.Collected.{
  push_new_holds, expr_grows, list_grows, block_grows, stmts_grows, collect_called, collect_access,
}

module _ (resolve_node : Text → Option Node) (tapes : Tapes)
    (seed1 seed2 : Node → Node → Expr) where
  -- The two seeds agree on the branches of a list.
  abbrev Agree : Branches → Type 0
  Agree out = (p m : Node) → has_branch out p m ≡ true → seed1 p m ≡ seed2 p m

  abbrev W : Expr → Branches → Branches
  W e out = walk (collect_at resolve_node) e out

  abbrev D1 : Expr → Expr
  D1 e = differentiate seed1 resolve_node tapes e

  abbrev D2 : Expr → Expr
  D2 e = differentiate seed2 resolve_node tapes e

  access_call :
      (name : Text) (args : Exprs) (out : Branches) (ds es : List Expr)
      → is_access name ≡ true
      → Agree (collect_branches resolve_node (call (ident name) args) out)
      → d_call seed1 resolve_node tapes name args ds ≡ d_call seed2 resolve_node tapes name args es
  unfolding d_call rule_of
  access_call name args out ds es a g =
      let p = node_or_ground resolve_node (nth_expr args 0) in
      let m = node_or_ground resolve_node (nth_expr args 1) in
      rw (a, d_call, rule_of)
        (g p m (rw (collect_access resolve_node name args out a) (push_new_holds out p m)))

  other_call :
      (name : Text) (args : Exprs) (ds : List Expr)
      → is_access name ≡ false
      → d_call seed1 resolve_node tapes name args ds ≡ d_call seed2 resolve_node tapes name args ds
  unfolding d_call rule_of chain_rule
  other_call name args ds a = elim (Option-cases (find_tape tapes name)) [
    | inr (d, f) ↦ rw (a, d_call, rule_of, f) refl
    | inl n ↦ elim (Bool-cases (starts_with name (codes "__"))) [
      | inl s ↦ rw (a, d_call, rule_of, n, s, chain_rule) refl
      | inr s ↦ elim (Option-cases (math_fn name)) [
        | inl u ↦ rw (a, d_call, rule_of, n, s, chain_rule, u) refl
        | inr (f, u) ↦ rw (a, d_call, rule_of, n, s, chain_rule, u) refl
      ]
    ]
  ]

  mutual
    unfolding differentiate collect_branches walk collect_at descend

    same : (e : Expr) (out : Branches) → Agree (W e out) → D1 e ≡ D2 e
    same (sys_call name args) out g =
        ap (λ ds. if is_limit name then or_lit (get_elem? ds 1) bits_zero else lit bits_zero)
          (same_list args out g)
    same (call (ident name) args) out g = elim (Bool-cases (is_access name)) [
      | inl a ↦ access_call name args out _ _ a g
      | inr a ↦
          let inside : Agree (walk_list (collect_at resolve_node) args out) =
            subst Agree (collect_called resolve_node name args out a) g in
          ap (d_call seed1 resolve_node tapes name args) (same_list args out inside)
          ∙ other_call name args _ a
    ]
    same (unary UnaryOp.negate x) out g = ap neg (same x out g)
    same (binary l op r) out g =
        let p = same l out (λ p m h. g p m (expr_grows resolve_node p m r (W l out) h)) in
        ap (λ d. d_binary op l r d (D1 r)) p
        ∙ ap (λ d. d_binary op l r (D2 l) d) (same r (W l out) g)
    same (if_expr c b d) out g =
        let between = walk_block (collect_at resolve_node) b (W c out) in
        let p =
          same_block b (W c out) (λ p m h. g p m (block_grows resolve_node p m d between h)) in
        ap (λ x. if_expr c (block_of x) (block_of (block_deriv seed1 resolve_node tapes d))) p
        ∙ ap (λ x. if_expr c (block_of (block_deriv seed2 resolve_node tapes b)) (block_of x))
            (same_block d between g)
    same (block b) out g = same_block b out g
    same (cast name e) out g = same e out g
    same e out g = refl

    same_list :
        (es : Exprs) (out : Branches)
        → Agree (walk_list (collect_at resolve_node) es out)
        → d_args seed1 resolve_node tapes es ≡ d_args seed2 resolve_node tapes es
    same_list no_exprs out g = refl
    same_list (exprs e es) out g =
        let p = same e out (λ p m h. g p m (list_grows resolve_node p m es (W e out) h)) in
        ap (λ d. d ∷ d_args seed1 resolve_node tapes es) p
        ∙ ap (λ ds. D2 e ∷ ds) (same_list es (W e out) g)

    same_block :
        (b : Block) (out : Branches)
        → Agree (walk_block (collect_at resolve_node) b out)
        → block_deriv seed1 resolve_node tapes b ≡ block_deriv seed2 resolve_node tapes b
    same_block (body ss (just_expr e)) out g =
        same e (walk_stmts (collect_at resolve_node) ss out) g
    same_block (body ss no_expr) out g = ap (λ d. or_lit d bits_zero) (same_stmts ss out g)

    same_stmts :
        (ss : Stmts) (out : Branches)
        → Agree (walk_stmts (collect_at resolve_node) ss out)
        → d_stmts seed1 resolve_node tapes ss ≡ d_stmts seed2 resolve_node tapes ss
    same_stmts no_stmts out g = refl
    same_stmts (stmts s ss) out g =
        let next = walk_stmt (collect_at resolve_node) s out in
        let p = same_stmt s out (λ p m h. g p m (stmts_grows resolve_node p m ss next h)) in
        ap
          (λ (o : Option Expr). elim o [
            | some d ↦ some d
            | none ↦ d_stmt seed1 resolve_node tapes s
          ])
          (same_stmts ss next g)
        ∙ ap
            (λ (o : Option Expr). elim (d_stmts seed2 resolve_node tapes ss) [
              | some d ↦ some d
              | none ↦ o
            ])
            p

    same_stmt :
        (s : Stmt) (out : Branches)
        → Agree (walk_stmt (collect_at resolve_node) s out)
        → d_stmt seed1 resolve_node tapes s ≡ d_stmt seed2 resolve_node tapes s
    same_stmt (expr_stmt e) out g = ap some (same e out g)
    same_stmt s out g = refl

-- If two seeds give every branch that collect_branches finds in an expression, starting from an empty list,
-- the same derivative, then differentiate makes the same expression with the one and with the other.
pub collect_branches_suffice :
    (resolve_node : Text → Option Node) (tapes : Tapes) (seed1 seed2 : Node → Node → Expr)
    (e : Expr)
    → ((p m : Node)
        → has_branch (collect_branches resolve_node e []) p m ≡ true
        → seed1 p m ≡ seed2 p m)
    → differentiate seed1 resolve_node tapes e ≡ differentiate seed2 resolve_node tapes e
unfolding collect_branches
collect_branches_suffice resolve_node tapes seed1 seed2 e agree =
    same resolve_node tapes seed1 seed2 e [] agree
