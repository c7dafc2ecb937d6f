-- ===== src/Analog/Keeps.antt =====
-- Lemmas on the walk of piperine-lang/src/parse/ast.rs: invariants of the state of its closure.
use piperine.Analog.Ast.{
  Expr, literal, sys_call, ident, path_expr, unary, binary, call, cast, index, slice, field, block,
  if_expr, array, tuple, bundle_lit, map_lit, set_lit, lambda, Exprs, no_exprs, exprs, MaybeExpr,
  no_expr, just_expr, Range, range, ArrayBody, repeat, comprehension, elements, FieldInits,
  no_fields, field_init, Entries, no_entries, map_entry, Block, body, MaybeBlock, no_block,
  just_block, Stmt, var_decl, return, if_stmt, match_stmt, for_stmt, bind, event, diagnostic,
  expr_stmt, Stmts, no_stmts, stmts, ForIter, over_range, over_expr, MatchArms, no_arms, match_arm,
  EventSpec, named, initial, final, any_of, EventSpecs, no_specs, event_specs,
}
use piperine.Analog.Walk.{
  Walk, continue, skip_children, descend, walk, walk_list, walk_maybe, walk_range, walk_array,
  walk_fields, walk_entries, walk_block, walk_maybe_block, walk_stmts, walk_stmt, walk_iter,
  walk_arms, walk_event, walk_events,
}

module _ {S : Type 0} (f : Expr → S → S × Walk) (Q : S → Type 0)
    (keeps : (e : Expr) (s : S) → Q s → Q (f e s).0) where
  descends : (r : S × Walk) (k : S → S) → Q r.0 → ((t : S) → Q t → Q (k t)) → Q (descend r k)
  unfolding descend
  descends (s, continue) k q h = h s q
  descends (s, skip_children) k q h = q

  mutual
    unfolding walk

    pub keep_expr : (x : Expr) (s : S) → Q s → Q (walk f x s)
    keep_expr (sys_call name args) s q =
        descends (f (sys_call name args) s) _ (keeps (sys_call name args) s q) (keep_list args)
    keep_expr (tuple items) s q =
        descends (f (tuple items) s) _ (keeps (tuple items) s q) (keep_list items)
    keep_expr (unary op x) s q =
        descends (f (unary op x) s) _ (keeps (unary op x) s q) (keep_expr x)
    keep_expr (cast name x) s q =
        descends (f (cast name x) s) _ (keeps (cast name x) s q) (keep_expr x)
    keep_expr (field x name) s q =
        descends (f (field x name) s) _ (keeps (field x name) s q) (keep_expr x)
    keep_expr (lambda params x) s q =
        descends (f (lambda params x) s) _ (keeps (lambda params x) s q) (keep_expr x)
    keep_expr (binary l op r) s q =
        descends (f (binary l op r) s) _ (keeps (binary l op r) s q)
          (λ t q'. keep_expr r (walk f l t) (keep_expr l t (q')))
    keep_expr (index l r) s q =
        descends (f (index l r) s) _ (keeps (index l r) s q)
          (λ t q'. keep_expr r (walk f l t) (keep_expr l t (q')))
    keep_expr (call callee args) s q =
        descends (f (call callee args) s) _ (keeps (call callee args) s q)
          (λ t q'. keep_list args (walk f callee t) (keep_expr callee t (q')))
    keep_expr (slice base r) s q =
        descends (f (slice base r) s) _ (keeps (slice base r) s q)
          (λ t q'. keep_range r (walk f base t) (keep_expr base t (q')))
    keep_expr (block b) s q = descends (f (block b) s) _ (keeps (block b) s q) (keep_block b)
    keep_expr (if_expr c b d) s q =
        descends (f (if_expr c b d) s) _ (keeps (if_expr c b d) s q) (λ t q'.
          keep_block d (walk_block f b (walk f c t))
            (keep_block b (walk f c t) (keep_expr c t (q'))))
    keep_expr (array items) s q =
        descends (f (array items) s) _ (keeps (array items) s q) (keep_array items)
    keep_expr (bundle_lit ty fields) s q =
        descends (f (bundle_lit ty fields) s) _ (keeps (bundle_lit ty fields) s q)
          (keep_fields fields)
    keep_expr (map_lit entries) s q =
        descends (f (map_lit entries) s) _ (keeps (map_lit entries) s q) (keep_entries entries)
    keep_expr (set_lit items) s q =
        descends (f (set_lit items) s) _ (keeps (set_lit items) s q) (keep_list items)
    keep_expr (literal l) s q = descends (f (literal l) s) _ (keeps (literal l) s q) (λ t q'. q')
    keep_expr (ident name) s q = descends (f (ident name) s) _ (keeps (ident name) s q) (λ t q'. q')
    keep_expr (path_expr p) s q =
        descends (f (path_expr p) s) _ (keeps (path_expr p) s q) (λ t q'. q')

    pub keep_list : (x : Exprs) (s : S) → Q s → Q (walk_list f x s)
    keep_list no_exprs s q = q
    keep_list (exprs e es) s q = keep_list es (walk f e s) (keep_expr e s q)

    pub keep_maybe : (x : MaybeExpr) (s : S) → Q s → Q (walk_maybe f x s)
    keep_maybe no_expr s q = q
    keep_maybe (just_expr e) s q = keep_expr e s q

    keep_range : (x : Range) (s : S) → Q s → Q (walk_range f x s)
    keep_range (range a b inclusive) s q = keep_expr b (walk f a s) (keep_expr a s q)

    keep_array : (x : ArrayBody) (s : S) → Q s → Q (walk_array f x s)
    keep_array (elements items) s q = keep_list items s q
    keep_array (repeat v n) s q = keep_expr n (walk f v s) (keep_expr v s q)
    keep_array (comprehension e name r) s q = keep_range r (walk f e s) (keep_expr e s q)

    keep_fields : (x : FieldInits) (s : S) → Q s → Q (walk_fields f x s)
    keep_fields no_fields s q = q
    keep_fields (field_init name e es) s q = keep_fields es (walk f e s) (keep_expr e s q)

    keep_entries : (x : Entries) (s : S) → Q s → Q (walk_entries f x s)
    keep_entries no_entries s q = q
    keep_entries (map_entry k v es) s q =
        keep_entries es (walk f v (walk f k s)) (keep_expr v (walk f k s) (keep_expr k s q))

    pub keep_block : (x : Block) (s : S) → Q s → Q (walk_block f x s)
    keep_block (body ss e) s q = keep_maybe e (walk_stmts f ss s) (keep_stmts ss s q)

    keep_maybe_block : (x : MaybeBlock) (s : S) → Q s → Q (walk_maybe_block f x s)
    keep_maybe_block no_block s q = q
    keep_maybe_block (just_block b) s q = keep_block b s q

    pub keep_stmts : (x : Stmts) (s : S) → Q s → Q (walk_stmts f x s)
    keep_stmts no_stmts s q = q
    keep_stmts (stmts st ss) s q = keep_stmts ss (walk_stmt f st s) (keep_stmt st s q)

    pub keep_stmt : (x : Stmt) (s : S) → Q s → Q (walk_stmt f x s)
    keep_stmt (var_decl name ty default) s q = keep_maybe default s q
    keep_stmt (return e) s q = keep_expr e s q
    keep_stmt (expr_stmt e) s q = keep_expr e s q
    keep_stmt (if_stmt c b d) s q =
        keep_maybe_block d (walk_block f b (walk f c s))
          (keep_block b (walk f c s) (keep_expr c s q))
    keep_stmt (match_stmt e arms) s q = keep_arms arms (walk f e s) (keep_expr e s q)
    keep_stmt (for_stmt name iter b) s q = keep_block b (walk_iter f iter s) (keep_iter iter s q)
    keep_stmt (bind dest op src) s q = keep_expr src (walk f dest s) (keep_expr dest s q)
    keep_stmt (event spec guard b) s q =
        keep_block b (walk_maybe f guard (walk_event f spec s))
          (keep_maybe guard (walk_event f spec s) (keep_event spec s q))
    keep_stmt (diagnostic sys args) s q = keep_list args s q

    keep_iter : (x : ForIter) (s : S) → Q s → Q (walk_iter f x s)
    keep_iter (over_range r) s q = keep_range r s q
    keep_iter (over_expr e) s q = keep_expr e s q

    keep_arms : (x : MatchArms) (s : S) → Q s → Q (walk_arms f x s)
    keep_arms no_arms s q = q
    keep_arms (match_arm pat b arms) s q = keep_arms arms (walk_block f b s) (keep_block b s q)

    keep_event : (x : EventSpec) (s : S) → Q s → Q (walk_event f x s)
    keep_event (named name args) s q = keep_list args s q
    keep_event initial s q = q
    keep_event final s q = q
    keep_event (any_of specs) s q = keep_events specs s q

    keep_events : (x : EventSpecs) (s : S) → Q s → Q (walk_events f x s)
    keep_events no_specs s q = q
    keep_events (event_specs spec specs) s q =
        keep_events specs (walk_event f spec s) (keep_event spec s q)
