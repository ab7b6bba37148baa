-- ===== src/Typecheck/Clone/Closures.antt =====
-- The closures of a tree of compiler/stage0/internal/ast name none of some types.
use dast_lang.Base.{String, Bool}
use dast_lang.Ast.Tree.{
  Expr, Exprs, QuoteParts, FieldInits, Block, Stmt, Stmts, Arms, Pattern, Patterns, FieldPatterns,
  array_lit, tuple_lit, unary, ref_expr, compile_expr, quote_expr, macro_call, deref_expr, binary,
  call, method_call, closure, struct_lit, access, index_expr, enum_variant, block_expr, loop_expr,
  if_expr, match_expr, cons_expr, cons_part, cons_init, block, block_stmt, let_stmt, let_pattern,
  assign, expr_stmt, return_stmt, if_stmt, if_let, while_stmt, while_let, loop_stmt, break_stmt,
  match_stmt, for_stmt, cons_stmt, cons_arm, variant, range_pattern, or_pattern, struct_pattern,
  tuple_pattern, array_pattern, cons_pattern, cons_field_pattern,
}
use dast_lang.Typecheck.Clone.Avoids.{AvoidsExpr}

abbrev mutual
  pub ClosuresAvoidExpr : (String → Bool) → Expr → Type 0
  ClosuresAvoidExpr names (array_lit a) = ClosuresAvoidExprs names a
  ClosuresAvoidExpr names (tuple_lit a) = ClosuresAvoidExprs names a
  ClosuresAvoidExpr names (unary _ b) = ClosuresAvoidExpr names b
  ClosuresAvoidExpr names (ref_expr _ b) = ClosuresAvoidExpr names b
  ClosuresAvoidExpr names (compile_expr _ b) = ClosuresAvoidExpr names b
  ClosuresAvoidExpr names (quote_expr _ b) = ClosuresAvoidQuoteParts names b
  ClosuresAvoidExpr names (macro_call a b) = ClosuresAvoidExpr names a × ClosuresAvoidExprs names b
  ClosuresAvoidExpr names (deref_expr a) = ClosuresAvoidExpr names a
  ClosuresAvoidExpr names (binary _ b c) = ClosuresAvoidExpr names b × ClosuresAvoidExpr names c
  ClosuresAvoidExpr names (call _ _ c) = ClosuresAvoidExprs names c
  ClosuresAvoidExpr names (method_call a _ c _ _ _) =
      ClosuresAvoidExpr names a × ClosuresAvoidExprs names c
  ClosuresAvoidExpr names (closure a b c) = AvoidsExpr names (closure a b c)
  ClosuresAvoidExpr names (struct_lit _ _ c) = ClosuresAvoidFieldInits names c
  ClosuresAvoidExpr names (access a _) = ClosuresAvoidExpr names a
  ClosuresAvoidExpr names (index_expr a b) = ClosuresAvoidExpr names a × ClosuresAvoidExpr names b
  ClosuresAvoidExpr names (enum_variant _ _ _ d) = ClosuresAvoidExpr names d
  ClosuresAvoidExpr names (block_expr a) = ClosuresAvoidBlock names a
  ClosuresAvoidExpr names (loop_expr a) = ClosuresAvoidBlock names a
  ClosuresAvoidExpr names (if_expr a b c) =
      ClosuresAvoidExpr names a × ClosuresAvoidExpr names b × ClosuresAvoidExpr names c
  ClosuresAvoidExpr names (match_expr a b) = ClosuresAvoidExpr names a × ClosuresAvoidArms names b
  ClosuresAvoidExpr names _ = Unit

  pub ClosuresAvoidExprs : (String → Bool) → Exprs → Type 0
  ClosuresAvoidExprs names (cons_expr a b) = ClosuresAvoidExpr names a × ClosuresAvoidExprs names b
  ClosuresAvoidExprs names _ = Unit

  pub ClosuresAvoidQuoteParts : (String → Bool) → QuoteParts → Type 0
  ClosuresAvoidQuoteParts names (cons_part _ b c) =
      ClosuresAvoidExpr names b × ClosuresAvoidQuoteParts names c
  ClosuresAvoidQuoteParts names _ = Unit

  pub ClosuresAvoidFieldInits : (String → Bool) → FieldInits → Type 0
  ClosuresAvoidFieldInits names (cons_init _ b c) =
      ClosuresAvoidExpr names b × ClosuresAvoidFieldInits names c
  ClosuresAvoidFieldInits names _ = Unit

  pub ClosuresAvoidBlock : (String → Bool) → Block → Type 0
  ClosuresAvoidBlock names (block a) = ClosuresAvoidStmts names a
  ClosuresAvoidBlock names _ = Unit

  pub ClosuresAvoidStmt : (String → Bool) → Stmt → Type 0
  ClosuresAvoidStmt names (block_stmt a) = ClosuresAvoidBlock names a
  ClosuresAvoidStmt names (let_stmt _ _ _ d) = ClosuresAvoidExpr names d
  ClosuresAvoidStmt names (let_pattern a _ _ d) =
      ClosuresAvoidPattern names a × ClosuresAvoidExpr names d
  ClosuresAvoidStmt names (assign a b) = ClosuresAvoidExpr names a × ClosuresAvoidExpr names b
  ClosuresAvoidStmt names (expr_stmt a) = ClosuresAvoidExpr names a
  ClosuresAvoidStmt names (return_stmt a) = ClosuresAvoidExpr names a
  ClosuresAvoidStmt names (if_stmt a b c) =
      ClosuresAvoidExpr names a × ClosuresAvoidBlock names b × ClosuresAvoidBlock names c
  ClosuresAvoidStmt names (if_let a b c d) =
      ClosuresAvoidPattern names a
      × ClosuresAvoidExpr names b
      × ClosuresAvoidBlock names c
      × ClosuresAvoidBlock names d
  ClosuresAvoidStmt names (while_stmt _ b c) =
      ClosuresAvoidExpr names b × ClosuresAvoidBlock names c
  ClosuresAvoidStmt names (while_let _ b c d) =
      ClosuresAvoidPattern names b × ClosuresAvoidExpr names c × ClosuresAvoidBlock names d
  ClosuresAvoidStmt names (loop_stmt _ b) = ClosuresAvoidBlock names b
  ClosuresAvoidStmt names (break_stmt _ b) = ClosuresAvoidExpr names b
  ClosuresAvoidStmt names (match_stmt a b) = ClosuresAvoidExpr names a × ClosuresAvoidArms names b
  ClosuresAvoidStmt names (for_stmt _ b c d) =
      ClosuresAvoidPattern names b × ClosuresAvoidExpr names c × ClosuresAvoidBlock names d
  ClosuresAvoidStmt names _ = Unit

  pub ClosuresAvoidStmts : (String → Bool) → Stmts → Type 0
  ClosuresAvoidStmts names (cons_stmt a b) = ClosuresAvoidStmt names a × ClosuresAvoidStmts names b
  ClosuresAvoidStmts names _ = Unit

  pub ClosuresAvoidArms : (String → Bool) → Arms → Type 0
  ClosuresAvoidArms names (cons_arm a b c d) =
      ClosuresAvoidPattern names a
      × ClosuresAvoidExpr names b
      × ClosuresAvoidBlock names c
      × ClosuresAvoidArms names d
  ClosuresAvoidArms names _ = Unit

  pub ClosuresAvoidPattern : (String → Bool) → Pattern → Type 0
  ClosuresAvoidPattern names (variant _ _ _ d) = ClosuresAvoidPattern names d
  ClosuresAvoidPattern names (range_pattern a b _) =
      ClosuresAvoidExpr names a × ClosuresAvoidExpr names b
  ClosuresAvoidPattern names (or_pattern a) = ClosuresAvoidPatterns names a
  ClosuresAvoidPattern names (struct_pattern _ b) = ClosuresAvoidFieldPatterns names b
  ClosuresAvoidPattern names (tuple_pattern a) = ClosuresAvoidPatterns names a
  ClosuresAvoidPattern names (array_pattern a) = ClosuresAvoidPatterns names a
  ClosuresAvoidPattern names _ = Unit

  pub ClosuresAvoidPatterns : (String → Bool) → Patterns → Type 0
  ClosuresAvoidPatterns names (cons_pattern a b) =
      ClosuresAvoidPattern names a × ClosuresAvoidPatterns names b
  ClosuresAvoidPatterns names _ = Unit

  pub ClosuresAvoidFieldPatterns : (String → Bool) → FieldPatterns → Type 0
  ClosuresAvoidFieldPatterns names (cons_field_pattern _ _ c d) =
      ClosuresAvoidPattern names c × ClosuresAvoidFieldPatterns names d
  ClosuresAvoidFieldPatterns names _ = Unit
