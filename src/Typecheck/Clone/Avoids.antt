-- ===== src/Typecheck/Clone/Avoids.antt =====
-- A tree of compiler/stage0/internal/ast in whose types, the places of an `ast.Type`, none of some
-- names is written. The names of variables, functions, structs, enums and variants are plain strings
-- there, and count for nothing.
use dast_lang.Base.{When, String, Bool, true, false, ◌≡◌, List, [], ◌∷◌}
use dast_lang.Ast.Types.{Ty, ty, OptTy, no_type, some_type, Tys, no_types, cons_type, ClosureParam}
use dast_lang.Ast.Tree.{
  Expr, Exprs, QuoteParts, FieldInits, Block, Stmt, Stmts, Arms, Pattern, Patterns, FieldPatterns,
  array_lit, tuple_lit, unary, ref_expr, compile_expr, quote_expr, macro_call, deref_expr, binary,
  call, method_call, closure, struct_lit, access, index_expr, enum_variant, block_expr, loop_expr,
  if_expr, match_expr, cons_expr, cons_part, cons_init, block, block_stmt, let_stmt, let_pattern,
  assign, expr_stmt, return_stmt, if_stmt, if_let, while_stmt, while_let, loop_stmt, break_stmt,
  match_stmt, for_stmt, cons_stmt, cons_arm, variant, range_pattern, or_pattern, struct_pattern,
  tuple_pattern, array_pattern, cons_pattern, cons_field_pattern,
}

-- The name of an array counts for nothing, and neither do the elements of what is no array or tuple.
abbrev mutual
  pub AvoidsTy : (String → Bool) → Ty → Type 0
  AvoidsTy names (ty n r m true t e es xs) =
      AvoidsElem names e × When t (AvoidsTys names es) × AvoidsTys names xs
  AvoidsTy names (ty n r m false t e es xs) =
      (names n ≡ false) × When t (AvoidsTys names es) × AvoidsTys names xs

  pub AvoidsElem : (String → Bool) → OptTy → Type 0
  AvoidsElem names no_type = Unit
  AvoidsElem names (some_type t) = AvoidsTy names t

  pub AvoidsTys : (String → Bool) → Tys → Type 0
  AvoidsTys names no_types = Unit
  AvoidsTys names (cons_type t ts) = AvoidsTy names t × AvoidsTys names ts

abbrev pub AvoidsClosureParams : (String → Bool) → List ClosureParam → Type 0
AvoidsClosureParams names [] = Unit
AvoidsClosureParams names (p ∷ ps) = AvoidsElem names p.type × AvoidsClosureParams names ps

abbrev mutual
  pub AvoidsExpr : (String → Bool) → Expr → Type 0
  AvoidsExpr names (array_lit a) = AvoidsExprs names a
  AvoidsExpr names (tuple_lit a) = AvoidsExprs names a
  AvoidsExpr names (unary _ b) = AvoidsExpr names b
  AvoidsExpr names (ref_expr _ b) = AvoidsExpr names b
  AvoidsExpr names (compile_expr _ b) = AvoidsExpr names b
  AvoidsExpr names (quote_expr _ b) = AvoidsQuoteParts names b
  AvoidsExpr names (macro_call a b) = AvoidsExpr names a × AvoidsExprs names b
  AvoidsExpr names (deref_expr a) = AvoidsExpr names a
  AvoidsExpr names (binary _ b c) = AvoidsExpr names b × AvoidsExpr names c
  AvoidsExpr names (call _ b c) = AvoidsTys names b × AvoidsExprs names c
  AvoidsExpr names (method_call a _ c _ _ _) = AvoidsExpr names a × AvoidsExprs names c
  AvoidsExpr names (closure a b c) =
      AvoidsClosureParams names a × AvoidsElem names b × AvoidsExpr names c
  AvoidsExpr names (struct_lit _ b c) = AvoidsTys names b × AvoidsFieldInits names c
  AvoidsExpr names (access a _) = AvoidsExpr names a
  AvoidsExpr names (index_expr a b) = AvoidsExpr names a × AvoidsExpr names b
  AvoidsExpr names (enum_variant _ b _ d) = AvoidsTys names b × AvoidsExpr names d
  AvoidsExpr names (block_expr a) = AvoidsBlock names a
  AvoidsExpr names (loop_expr a) = AvoidsBlock names a
  AvoidsExpr names (if_expr a b c) = AvoidsExpr names a × AvoidsExpr names b × AvoidsExpr names c
  AvoidsExpr names (match_expr a b) = AvoidsExpr names a × AvoidsArms names b
  AvoidsExpr names _ = Unit

  pub AvoidsExprs : (String → Bool) → Exprs → Type 0
  AvoidsExprs names (cons_expr a b) = AvoidsExpr names a × AvoidsExprs names b
  AvoidsExprs names _ = Unit

  pub AvoidsQuoteParts : (String → Bool) → QuoteParts → Type 0
  AvoidsQuoteParts names (cons_part _ b c) = AvoidsExpr names b × AvoidsQuoteParts names c
  AvoidsQuoteParts names _ = Unit

  pub AvoidsFieldInits : (String → Bool) → FieldInits → Type 0
  AvoidsFieldInits names (cons_init _ b c) = AvoidsExpr names b × AvoidsFieldInits names c
  AvoidsFieldInits names _ = Unit

  pub AvoidsBlock : (String → Bool) → Block → Type 0
  AvoidsBlock names (block a) = AvoidsStmts names a
  AvoidsBlock names _ = Unit

  pub AvoidsStmt : (String → Bool) → Stmt → Type 0
  AvoidsStmt names (block_stmt a) = AvoidsBlock names a
  AvoidsStmt names (let_stmt _ _ c d) = AvoidsElem names c × AvoidsExpr names d
  AvoidsStmt names (let_pattern a _ c d) =
      AvoidsPattern names a × AvoidsElem names c × AvoidsExpr names d
  AvoidsStmt names (assign a b) = AvoidsExpr names a × AvoidsExpr names b
  AvoidsStmt names (expr_stmt a) = AvoidsExpr names a
  AvoidsStmt names (return_stmt a) = AvoidsExpr names a
  AvoidsStmt names (if_stmt a b c) = AvoidsExpr names a × AvoidsBlock names b × AvoidsBlock names c
  AvoidsStmt names (if_let a b c d) =
      AvoidsPattern names a × AvoidsExpr names b × AvoidsBlock names c × AvoidsBlock names d
  AvoidsStmt names (while_stmt _ b c) = AvoidsExpr names b × AvoidsBlock names c
  AvoidsStmt names (while_let _ b c d) =
      AvoidsPattern names b × AvoidsExpr names c × AvoidsBlock names d
  AvoidsStmt names (loop_stmt _ b) = AvoidsBlock names b
  AvoidsStmt names (break_stmt _ b) = AvoidsExpr names b
  AvoidsStmt names (match_stmt a b) = AvoidsExpr names a × AvoidsArms names b
  AvoidsStmt names (for_stmt _ b c d) =
      AvoidsPattern names b × AvoidsExpr names c × AvoidsBlock names d
  AvoidsStmt names _ = Unit

  pub AvoidsStmts : (String → Bool) → Stmts → Type 0
  AvoidsStmts names (cons_stmt a b) = AvoidsStmt names a × AvoidsStmts names b
  AvoidsStmts names _ = Unit

  pub AvoidsArms : (String → Bool) → Arms → Type 0
  AvoidsArms names (cons_arm a b c d) =
      AvoidsPattern names a × AvoidsExpr names b × AvoidsBlock names c × AvoidsArms names d
  AvoidsArms names _ = Unit

  pub AvoidsPattern : (String → Bool) → Pattern → Type 0
  AvoidsPattern names (variant _ _ _ d) = AvoidsPattern names d
  AvoidsPattern names (range_pattern a b _) = AvoidsExpr names a × AvoidsExpr names b
  AvoidsPattern names (or_pattern a) = AvoidsPatterns names a
  AvoidsPattern names (struct_pattern _ b) = AvoidsFieldPatterns names b
  AvoidsPattern names (tuple_pattern a) = AvoidsPatterns names a
  AvoidsPattern names (array_pattern a) = AvoidsPatterns names a
  AvoidsPattern names _ = Unit

  pub AvoidsPatterns : (String → Bool) → Patterns → Type 0
  AvoidsPatterns names (cons_pattern a b) = AvoidsPattern names a × AvoidsPatterns names b
  AvoidsPatterns names _ = Unit

  pub AvoidsFieldPatterns : (String → Bool) → FieldPatterns → Type 0
  AvoidsFieldPatterns names (cons_field_pattern _ _ c d) =
      AvoidsPattern names c × AvoidsFieldPatterns names d
  AvoidsFieldPatterns names _ = Unit
