-- ===== src/Analog/Ast.antt =====
-- Expressions and the blocks and statements inside them: piperine-lang/src/parse/ast.rs.
-- A list, an option or a range of expressions is a data type of the mutual block.
use piperine.Common.{ℕ, Bool, List, Text}
use piperine.Analog.Bits.{Bits}

pub data Literal : Type 0 where
  real : Bits → Literal
  int : ℕ → Literal
  bool : Bool → Literal
  quad : Text → Literal
  string : Text → Literal
  absent : Literal

pub data UnaryOp : Type 0 where
  negate complement : UnaryOp

pub data BinaryOp : Type 0 where
  add sub mul div rem : BinaryOp
  eq neq lt le gt ge : BinaryOp
  bit_and bit_or bit_xor : BinaryOp
  and or : BinaryOp

pub data BindOp : Type 0 where
  contrib force assign : BindOp

pub record PathRef : Type 0 where
  pub segments : List Text

pub data Pattern : Type 0 where
  path : PathRef → Pattern
  wildcard : Pattern
  number : ℕ → Pattern
  bit_pattern : Text → Pattern

mutual
  pub data Expr : Type 0 where
    literal : Literal → Expr
    sys_call : Text → Exprs → Expr
    ident : Text → Expr
    path_expr : PathRef → Expr
    unary : UnaryOp → Expr → Expr
    binary : Expr → BinaryOp → Expr → Expr
    call : Expr → Exprs → Expr
    cast : Text → Expr → Expr
    index : Expr → Expr → Expr
    slice : Expr → Range → Expr
    field : Expr → Text → Expr
    block : Block → Expr
    if_expr : Expr → Block → Block → Expr
    array : ArrayBody → Expr
    tuple : Exprs → Expr
    bundle_lit : TypeRef → FieldInits → Expr
    map_lit : Entries → Expr
    set_lit : Exprs → Expr
    lambda : List Text → Expr → Expr

  -- Vec<Expr>
  pub data Exprs : Type 0 where
    no_exprs : Exprs
    exprs : Expr → Exprs → Exprs

  -- Option<Expr>
  pub data MaybeExpr : Type 0 where
    no_expr : MaybeExpr
    just_expr : Expr → MaybeExpr

  -- start, end, inclusive
  pub data Range : Type 0 where
    range : Expr → Expr → Bool → Range

  pub data ArrayBody : Type 0 where
    repeat : Expr → Expr → ArrayBody
    comprehension : Expr → Text → Range → ArrayBody
    elements : Exprs → ArrayBody

  -- Vec<(String, Expr)> and Vec<(Expr, Expr)>
  pub data FieldInits : Type 0 where
    no_fields : FieldInits
    field_init : Text → Expr → FieldInits → FieldInits

  pub data Entries : Type 0 where
    no_entries : Entries
    map_entry : Expr → Expr → Entries → Entries

  -- name, args, dimensions, optional
  pub data TypeRef : Type 0 where
    type_ref : Text → TypeRefs → Exprs → Bool → TypeRef

  pub data TypeRefs : Type 0 where
    no_types : TypeRefs
    type_refs : TypeRef → TypeRefs → TypeRefs

  pub data MaybeType : Type 0 where
    no_type : MaybeType
    just_type : TypeRef → MaybeType

  -- stmts, expr
  pub data Block : Type 0 where
    body : Stmts → MaybeExpr → Block

  pub data MaybeBlock : Type 0 where
    no_block : MaybeBlock
    just_block : Block → MaybeBlock

  pub data Stmt : Type 0 where
    var_decl : Text → MaybeType → MaybeExpr → Stmt
    return : Expr → Stmt
    if_stmt : Expr → Block → MaybeBlock → Stmt
    match_stmt : Expr → MatchArms → Stmt
    for_stmt : Text → ForIter → Block → Stmt
    bind : Expr → BindOp → Expr → Stmt
    event : EventSpec → MaybeExpr → Block → Stmt
    diagnostic : Text → Exprs → Stmt
    expr_stmt : Expr → Stmt

  pub data Stmts : Type 0 where
    no_stmts : Stmts
    stmts : Stmt → Stmts → Stmts

  pub data ForIter : Type 0 where
    over_range : Range → ForIter
    over_expr : Expr → ForIter

  pub data MatchArms : Type 0 where
    no_arms : MatchArms
    match_arm : Pattern → Block → MatchArms → MatchArms

  pub data EventSpec : Type 0 where
    named : Text → Exprs → EventSpec
    initial final : EventSpec
    any_of : EventSpecs → EventSpec

  pub data EventSpecs : Type 0 where
    no_specs : EventSpecs
    event_specs : EventSpec → EventSpecs → EventSpecs
