-- ===== src/Analog/Walk.antt =====
-- The walk over the expressions inside an expression, a block or a statement:
-- piperine-lang/src/parse/ast.rs; and the branches that piperine-codegen/src/resolve/diff.rs collects.
use piperine.Common.{
  Bool, false, not, ◌&&◌, ◌||◌, Option, List, [], ◌∷◌, ◌++◌, Text, if◌then◌else◌, ◌==◌,
}
use piperine.Analog.Ast.{
  Expr, literal, sys_call, ident, path_expr, unary, binary, call, cast, index, slice, field, block,
  if_expr, array, tuple, bundle_lit, map_lit, set_lit, lambda, Exprs, no_exprs, exprs, MaybeExpr,
  no_expr, just_expr, Range, range, ArrayBody, repeat, comprehension, elements, FieldInits,
  no_fields, field_init, Entries, no_entries, map_entry, Block, body, MaybeBlock, no_block,
  just_block, Stmt, var_decl, return, if_stmt, match_stmt, for_stmt, bind, event, diagnostic,
  expr_stmt, Stmts, no_stmts, stmts, ForIter, over_range, over_expr, MatchArms, no_arms, match_arm,
  EventSpec, named, initial, final, any_of, EventSpecs, no_specs, event_specs,
}
use piperine.Analog.Diff.{Node, is_access, node_or_ground, nth_expr}

pub data Walk : Type 0 where
  continue skip_children : Walk

unfoldable pub descend : {S : Type 0} → S × Walk → (S → S) → S
descend (s, continue) children = children s
descend (s, skip_children) children = s

-- `f` is the closure, over the state that it captures.
module _ {S : Type 0} (f : Expr → S → S × Walk) where
  unfoldable mutual
    pub walk : Expr → S → S
    walk (sys_call name args) s = descend (f (sys_call name args) s) (walk_list args)
    walk (tuple items) s = descend (f (tuple items) s) (walk_list items)
    walk (unary op x) s = descend (f (unary op x) s) (walk x)
    walk (cast name x) s = descend (f (cast name x) s) (walk x)
    walk (field x name) s = descend (f (field x name) s) (walk x)
    walk (lambda params x) s = descend (f (lambda params x) s) (walk x)
    walk (binary l op r) s = descend (f (binary l op r) s) (λ t. walk r (walk l t))
    walk (index l r) s = descend (f (index l r) s) (λ t. walk r (walk l t))
    walk (call callee args) s =
        descend (f (call callee args) s) (λ t. walk_list args (walk callee t))
    walk (slice base r) s = descend (f (slice base r) s) (λ t. walk_range r (walk base t))
    walk (block b) s = descend (f (block b) s) (walk_block b)
    walk (if_expr c b d) s =
        descend (f (if_expr c b d) s) (λ t. walk_block d (walk_block b (walk c t)))
    walk (array items) s = descend (f (array items) s) (walk_array items)
    walk (bundle_lit ty fields) s = descend (f (bundle_lit ty fields) s) (walk_fields fields)
    walk (map_lit entries) s = descend (f (map_lit entries) s) (walk_entries entries)
    walk (set_lit items) s = descend (f (set_lit items) s) (walk_list items)
    walk (literal l) s = descend (f (literal l) s) (λ t. t)
    walk (ident name) s = descend (f (ident name) s) (λ t. t)
    walk (path_expr p) s = descend (f (path_expr p) s) (λ t. t)

    pub walk_list : Exprs → S → S
    walk_list no_exprs s = s
    walk_list (exprs e es) s = walk_list es (walk e s)

    pub walk_maybe : MaybeExpr → S → S
    walk_maybe no_expr s = s
    walk_maybe (just_expr e) s = walk e s

    pub walk_range : Range → S → S
    walk_range (range a b inclusive) s = walk b (walk a s)

    pub walk_array : ArrayBody → S → S
    walk_array (elements items) s = walk_list items s
    walk_array (repeat v n) s = walk n (walk v s)
    walk_array (comprehension e name r) s = walk_range r (walk e s)

    pub walk_fields : FieldInits → S → S
    walk_fields no_fields s = s
    walk_fields (field_init name e es) s = walk_fields es (walk e s)

    pub walk_entries : Entries → S → S
    walk_entries no_entries s = s
    walk_entries (map_entry k v es) s = walk_entries es (walk v (walk k s))

    pub walk_block : Block → S → S
    walk_block (body ss e) s = walk_maybe e (walk_stmts ss s)

    pub walk_maybe_block : MaybeBlock → S → S
    walk_maybe_block no_block s = s
    walk_maybe_block (just_block b) s = walk_block b s

    pub walk_stmts : Stmts → S → S
    walk_stmts no_stmts s = s
    walk_stmts (stmts st ss) s = walk_stmts ss (walk_stmt st s)

    pub walk_stmt : Stmt → S → S
    walk_stmt (var_decl name ty default) s = walk_maybe default s
    walk_stmt (return e) s = walk e s
    walk_stmt (expr_stmt e) s = walk e s
    walk_stmt (if_stmt c b d) s = walk_maybe_block d (walk_block b (walk c s))
    walk_stmt (match_stmt e arms) s = walk_arms arms (walk e s)
    walk_stmt (for_stmt name iter b) s = walk_block b (walk_iter iter s)
    walk_stmt (bind dest op src) s = walk src (walk dest s)
    walk_stmt (event spec guard b) s = walk_block b (walk_maybe guard (walk_event spec s))
    walk_stmt (diagnostic sys args) s = walk_list args s

    pub walk_iter : ForIter → S → S
    walk_iter (over_range r) s = walk_range r s
    walk_iter (over_expr e) s = walk e s

    pub walk_arms : MatchArms → S → S
    walk_arms no_arms s = s
    walk_arms (match_arm pat b arms) s = walk_arms arms (walk_block b s)

    pub walk_event : EventSpec → S → S
    walk_event (named name args) s = walk_list args s
    walk_event initial s = s
    walk_event final s = s
    walk_event (any_of specs) s = walk_events specs s

    pub walk_events : EventSpecs → S → S
    walk_events no_specs s = s
    walk_events (event_specs spec specs) s = walk_events specs (walk_event spec s)

abbrev pub Branches : Type 0
Branches = List (Node × Node)

unfoldable pub has_branch : Branches → Node → Node → Bool
has_branch [] p m = false
has_branch ((a, b) ∷ rest) p m = (a == p && b == m) || has_branch rest p m

-- `if !out.contains(&pair) { out.push(pair) }`
unfoldable pub push_new : Branches → Node → Node → Branches
push_new out p m = if not (has_branch out p m) then out ++ (p, m) ∷ [] else out

module _ (resolve_node : Text → Option Node) where
  unfoldable pub collect_call : Text → Exprs → Branches → Branches × Walk
  collect_call name args out =
      if is_access name
      then (
        push_new out (node_or_ground resolve_node (nth_expr args 0))
            (node_or_ground resolve_node (nth_expr args 1)),
        skip_children,
      )
      else (out, continue)

  unfoldable pub collect_at : Expr → Branches → Branches × Walk
  collect_at (call (ident name) args) out = collect_call name args out
  collect_at _ out = (out, continue)

  unfoldable pub collect_branches : Expr → Branches → Branches
  collect_branches e out = walk collect_at e out
