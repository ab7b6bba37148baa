-- ===== src/Typecheck/Clone/Unresolved.antt =====
-- The trees of compiler/stage0/internal/ast before the type checker has resolved their method calls:
-- the fields that it sets in a `MethodCallExpr` are those of a new one.
use dast_lang.Base.{false, ◌≡◌}
use dast_lang.Ast.Tree.{
  Expr, Exprs, QuoteParts, FieldInits, Block, Stmt, Stmts, Arms, Pattern, Patterns, FieldPatterns,
  array_lit, tuple_lit, unary, ref_expr, compile_expr, quote_expr, macro_call, deref_expr, binary,
  call, method_call, struct_lit, access, index_expr, enum_variant, block_expr, loop_expr, if_expr,
  match_expr, cons_expr, cons_part, cons_init, block, block_stmt, let_stmt, let_pattern, assign,
  expr_stmt, return_stmt, if_stmt, if_let, while_stmt, while_let, loop_stmt, break_stmt, match_stmt,
  for_stmt, cons_stmt, cons_arm, variant, range_pattern, or_pattern, struct_pattern, tuple_pattern,
  array_pattern, cons_pattern, cons_field_pattern,
}

abbrev mutual
  pub UnresolvedExpr : Expr → Type 0
  UnresolvedExpr (array_lit a) = UnresolvedExprs a
  UnresolvedExpr (tuple_lit a) = UnresolvedExprs a
  UnresolvedExpr (unary _ b) = UnresolvedExpr b
  UnresolvedExpr (ref_expr _ b) = UnresolvedExpr b
  UnresolvedExpr (compile_expr _ b) = UnresolvedExpr b
  UnresolvedExpr (quote_expr _ b) = UnresolvedQuoteParts b
  UnresolvedExpr (macro_call a b) = UnresolvedExpr a × UnresolvedExprs b
  UnresolvedExpr (deref_expr a) = UnresolvedExpr a
  UnresolvedExpr (binary _ b c) = UnresolvedExpr b × UnresolvedExpr c
  UnresolvedExpr (call _ _ c) = UnresolvedExprs c
  UnresolvedExpr (method_call a _ c d e f) =
      UnresolvedExpr a × UnresolvedExprs c × (d ≡ "") × (e ≡ false) × (f ≡ "")
  UnresolvedExpr (struct_lit _ _ c) = UnresolvedFieldInits c
  UnresolvedExpr (access a _) = UnresolvedExpr a
  UnresolvedExpr (index_expr a b) = UnresolvedExpr a × UnresolvedExpr b
  UnresolvedExpr (enum_variant _ _ _ d) = UnresolvedExpr d
  UnresolvedExpr (block_expr a) = UnresolvedBlock a
  UnresolvedExpr (loop_expr a) = UnresolvedBlock a
  UnresolvedExpr (if_expr a b c) = UnresolvedExpr a × UnresolvedExpr b × UnresolvedExpr c
  UnresolvedExpr (match_expr a b) = UnresolvedExpr a × UnresolvedArms b
  UnresolvedExpr _ = Unit

  pub UnresolvedExprs : Exprs → Type 0
  UnresolvedExprs (cons_expr a b) = UnresolvedExpr a × UnresolvedExprs b
  UnresolvedExprs _ = Unit

  pub UnresolvedQuoteParts : QuoteParts → Type 0
  UnresolvedQuoteParts (cons_part _ b c) = UnresolvedExpr b × UnresolvedQuoteParts c
  UnresolvedQuoteParts _ = Unit

  pub UnresolvedFieldInits : FieldInits → Type 0
  UnresolvedFieldInits (cons_init _ b c) = UnresolvedExpr b × UnresolvedFieldInits c
  UnresolvedFieldInits _ = Unit

  pub UnresolvedBlock : Block → Type 0
  UnresolvedBlock (block a) = UnresolvedStmts a
  UnresolvedBlock _ = Unit

  pub UnresolvedStmt : Stmt → Type 0
  UnresolvedStmt (block_stmt a) = UnresolvedBlock a
  UnresolvedStmt (let_stmt _ _ _ d) = UnresolvedExpr d
  UnresolvedStmt (let_pattern a _ _ d) = UnresolvedPattern a × UnresolvedExpr d
  UnresolvedStmt (assign a b) = UnresolvedExpr a × UnresolvedExpr b
  UnresolvedStmt (expr_stmt a) = UnresolvedExpr a
  UnresolvedStmt (return_stmt a) = UnresolvedExpr a
  UnresolvedStmt (if_stmt a b c) = UnresolvedExpr a × UnresolvedBlock b × UnresolvedBlock c
  UnresolvedStmt (if_let a b c d) =
      UnresolvedPattern a × UnresolvedExpr b × UnresolvedBlock c × UnresolvedBlock d
  UnresolvedStmt (while_stmt _ b c) = UnresolvedExpr b × UnresolvedBlock c
  UnresolvedStmt (while_let _ b c d) = UnresolvedPattern b × UnresolvedExpr c × UnresolvedBlock d
  UnresolvedStmt (loop_stmt _ b) = UnresolvedBlock b
  UnresolvedStmt (break_stmt _ b) = UnresolvedExpr b
  UnresolvedStmt (match_stmt a b) = UnresolvedExpr a × UnresolvedArms b
  UnresolvedStmt (for_stmt _ b c d) = UnresolvedPattern b × UnresolvedExpr c × UnresolvedBlock d
  UnresolvedStmt _ = Unit

  pub UnresolvedStmts : Stmts → Type 0
  UnresolvedStmts (cons_stmt a b) = UnresolvedStmt a × UnresolvedStmts b
  UnresolvedStmts _ = Unit

  pub UnresolvedArms : Arms → Type 0
  UnresolvedArms (cons_arm a b c d) =
      UnresolvedPattern a × UnresolvedExpr b × UnresolvedBlock c × UnresolvedArms d
  UnresolvedArms _ = Unit

  pub UnresolvedPattern : Pattern → Type 0
  UnresolvedPattern (variant _ _ _ d) = UnresolvedPattern d
  UnresolvedPattern (range_pattern a b _) = UnresolvedExpr a × UnresolvedExpr b
  UnresolvedPattern (or_pattern a) = UnresolvedPatterns a
  UnresolvedPattern (struct_pattern _ b) = UnresolvedFieldPatterns b
  UnresolvedPattern (tuple_pattern a) = UnresolvedPatterns a
  UnresolvedPattern (array_pattern a) = UnresolvedPatterns a
  UnresolvedPattern _ = Unit

  pub UnresolvedPatterns : Patterns → Type 0
  UnresolvedPatterns (cons_pattern a b) = UnresolvedPattern a × UnresolvedPatterns b
  UnresolvedPatterns _ = Unit

  pub UnresolvedFieldPatterns : FieldPatterns → Type 0
  UnresolvedFieldPatterns (cons_field_pattern _ _ c d) =
      UnresolvedPattern c × UnresolvedFieldPatterns d
  UnresolvedFieldPatterns _ = Unit
