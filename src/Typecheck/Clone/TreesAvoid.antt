-- ===== src/Typecheck/Clone/TreesAvoid.antt =====
-- The types in a tree that compiler/stage0/internal/typecheck/clone.go has copied.
use dast_lang.Base.{String, Bool}
use dast_lang.Ast.Tree.{
  Expr, Exprs, QuoteParts, FieldInits, Block, Stmt, Stmts, Arms, Pattern, Patterns, FieldPatterns,
  no_expr, ident, int_lit, char_lit, float_lit, bool_lit, string_lit, array_lit, tuple_lit, unary,
  ref_expr, compile_expr, quote_expr, macro_call, deref_expr, binary, call, method_call, closure,
  struct_lit, access, index_expr, enum_variant, block_expr, loop_expr, if_expr, match_expr,
  no_exprs, cons_expr, no_parts, cons_part, no_inits, cons_init, no_block, block, no_stmt,
  block_stmt, let_stmt, let_pattern, assign, expr_stmt, return_stmt, if_stmt, if_let, while_stmt,
  while_let, loop_stmt, break_stmt, continue_stmt, match_stmt, for_stmt, no_stmts, cons_stmt,
  no_arms, cons_arm, no_pattern, wildcard, binding, variant, literal, range_pattern, or_pattern,
  struct_pattern, tuple_pattern, array_pattern, no_patterns, cons_pattern, no_field_patterns,
  cons_field_pattern,
}
use dast_lang.Typecheck.Clone.Types.{Subst}
use dast_lang.Typecheck.Clone.Trees.{
  clone_expr, clone_exprs, clone_parts, clone_inits, clone_block, clone_stmt, clone_stmts,
  clone_pattern, clone_patterns, clone_field_patterns, clone_arms,
}
use dast_lang.Typecheck.Clone.Avoids.{
  AvoidsExpr, AvoidsExprs, AvoidsQuoteParts, AvoidsFieldInits, AvoidsBlock, AvoidsStmt, AvoidsStmts,
  AvoidsPattern, AvoidsPatterns, AvoidsFieldPatterns, AvoidsArms,
}
use dast_lang.Typecheck.Clone.Closures.{
  ClosuresAvoidExpr, ClosuresAvoidExprs, ClosuresAvoidQuoteParts, ClosuresAvoidFieldInits,
  ClosuresAvoidBlock, ClosuresAvoidStmt, ClosuresAvoidStmts, ClosuresAvoidPattern,
  ClosuresAvoidPatterns, ClosuresAvoidFieldPatterns, ClosuresAvoidArms,
}
use dast_lang.Typecheck.Clone.TypesAvoid.{Apart, clone_elem-AvoidsElem, clone_types-AvoidsTys}

module _ (subst : Subst) (names : String → Bool) (apart : Apart subst names) where
  mutual
    unfolding clone_expr

    pub clone_expr-AvoidsExpr :
        (x : Expr) → ClosuresAvoidExpr names x → AvoidsExpr names (clone_expr subst x)
    clone_expr-AvoidsExpr no_expr h = tt
    clone_expr-AvoidsExpr (ident a) h = tt
    clone_expr-AvoidsExpr (int_lit a) h = tt
    clone_expr-AvoidsExpr (char_lit a) h = tt
    clone_expr-AvoidsExpr (float_lit a) h = tt
    clone_expr-AvoidsExpr (bool_lit a) h = tt
    clone_expr-AvoidsExpr (string_lit a) h = tt
    clone_expr-AvoidsExpr (array_lit a) h = clone_exprs-AvoidsExprs a h
    clone_expr-AvoidsExpr (tuple_lit a) h = clone_exprs-AvoidsExprs a h
    clone_expr-AvoidsExpr (unary a b) h = clone_expr-AvoidsExpr b h
    clone_expr-AvoidsExpr (ref_expr a b) h = clone_expr-AvoidsExpr b h
    clone_expr-AvoidsExpr (compile_expr a b) h = clone_expr-AvoidsExpr b h
    clone_expr-AvoidsExpr (quote_expr a b) h = clone_parts-AvoidsQuoteParts b h
    clone_expr-AvoidsExpr (macro_call a b) h =
        (clone_expr-AvoidsExpr a h.0, clone_exprs-AvoidsExprs b h.1)
    clone_expr-AvoidsExpr (deref_expr a) h = clone_expr-AvoidsExpr a h
    clone_expr-AvoidsExpr (binary a b c) h =
        (clone_expr-AvoidsExpr b h.0, clone_expr-AvoidsExpr c h.1)
    clone_expr-AvoidsExpr (call a b c) h =
        (clone_types-AvoidsTys subst names apart b, clone_exprs-AvoidsExprs c h)
    clone_expr-AvoidsExpr (method_call a b c d e f) h =
        (clone_expr-AvoidsExpr a h.0, clone_exprs-AvoidsExprs c h.1)
    clone_expr-AvoidsExpr (closure a b c) h = h
    clone_expr-AvoidsExpr (struct_lit a b c) h =
        (clone_types-AvoidsTys subst names apart b, clone_inits-AvoidsFieldInits c h)
    clone_expr-AvoidsExpr (access a b) h = clone_expr-AvoidsExpr a h
    clone_expr-AvoidsExpr (index_expr a b) h =
        (clone_expr-AvoidsExpr a h.0, clone_expr-AvoidsExpr b h.1)
    clone_expr-AvoidsExpr (enum_variant a b c d) h =
        (clone_types-AvoidsTys subst names apart b, clone_expr-AvoidsExpr d h)
    clone_expr-AvoidsExpr (block_expr a) h = clone_block-AvoidsBlock a h
    clone_expr-AvoidsExpr (loop_expr a) h = clone_block-AvoidsBlock a h
    clone_expr-AvoidsExpr (if_expr a b c) h =
        (clone_expr-AvoidsExpr a h.0, clone_expr-AvoidsExpr b h.1, clone_expr-AvoidsExpr c h.2)
    clone_expr-AvoidsExpr (match_expr a b) h =
        (clone_expr-AvoidsExpr a h.0, clone_arms-AvoidsArms b h.1)

    pub clone_exprs-AvoidsExprs :
        (x : Exprs) → ClosuresAvoidExprs names x → AvoidsExprs names (clone_exprs subst x)
    clone_exprs-AvoidsExprs no_exprs h = tt
    clone_exprs-AvoidsExprs (cons_expr a b) h =
        (clone_expr-AvoidsExpr a h.0, clone_exprs-AvoidsExprs b h.1)

    pub clone_parts-AvoidsQuoteParts :
        (x : QuoteParts)
        → ClosuresAvoidQuoteParts names x
        → AvoidsQuoteParts names (clone_parts subst x)
    clone_parts-AvoidsQuoteParts no_parts h = tt
    clone_parts-AvoidsQuoteParts (cons_part a b c) h =
        (clone_expr-AvoidsExpr b h.0, clone_parts-AvoidsQuoteParts c h.1)

    pub clone_inits-AvoidsFieldInits :
        (x : FieldInits)
        → ClosuresAvoidFieldInits names x
        → AvoidsFieldInits names (clone_inits subst x)
    clone_inits-AvoidsFieldInits no_inits h = tt
    clone_inits-AvoidsFieldInits (cons_init a b c) h =
        (clone_expr-AvoidsExpr b h.0, clone_inits-AvoidsFieldInits c h.1)

    pub clone_block-AvoidsBlock :
        (x : Block) → ClosuresAvoidBlock names x → AvoidsBlock names (clone_block subst x)
    clone_block-AvoidsBlock no_block h = tt
    clone_block-AvoidsBlock (block a) h = clone_stmts-AvoidsStmts a h

    pub clone_stmt-AvoidsStmt :
        (x : Stmt) → ClosuresAvoidStmt names x → AvoidsStmt names (clone_stmt subst x)
    clone_stmt-AvoidsStmt no_stmt h = tt
    clone_stmt-AvoidsStmt (block_stmt a) h = clone_block-AvoidsBlock a h
    clone_stmt-AvoidsStmt (let_stmt a b c d) h =
        (clone_elem-AvoidsElem subst names apart c, clone_expr-AvoidsExpr d h)
    clone_stmt-AvoidsStmt (let_pattern a b c d) h = (
      clone_pattern-AvoidsPattern a h.0,
      clone_elem-AvoidsElem subst names apart c,
      clone_expr-AvoidsExpr d h.1,
    )
    clone_stmt-AvoidsStmt (assign a b) h =
        (clone_expr-AvoidsExpr a h.0, clone_expr-AvoidsExpr b h.1)
    clone_stmt-AvoidsStmt (expr_stmt a) h = clone_expr-AvoidsExpr a h
    clone_stmt-AvoidsStmt (return_stmt a) h = clone_expr-AvoidsExpr a h
    clone_stmt-AvoidsStmt (if_stmt a b c) h =
        (clone_expr-AvoidsExpr a h.0, clone_block-AvoidsBlock b h.1, clone_block-AvoidsBlock c h.2)
    clone_stmt-AvoidsStmt (if_let a b c d) h = (
      clone_pattern-AvoidsPattern a h.0,
      clone_expr-AvoidsExpr b h.1,
      clone_block-AvoidsBlock c h.2,
      clone_block-AvoidsBlock d h.3,
    )
    clone_stmt-AvoidsStmt (while_stmt a b c) h =
        (clone_expr-AvoidsExpr b h.0, clone_block-AvoidsBlock c h.1)
    clone_stmt-AvoidsStmt (while_let a b c d) h = (
      clone_pattern-AvoidsPattern b h.0,
      clone_expr-AvoidsExpr c h.1,
      clone_block-AvoidsBlock d h.2,
    )
    clone_stmt-AvoidsStmt (loop_stmt a b) h = clone_block-AvoidsBlock b h
    clone_stmt-AvoidsStmt (break_stmt a b) h = clone_expr-AvoidsExpr b h
    clone_stmt-AvoidsStmt (continue_stmt a) h = tt
    clone_stmt-AvoidsStmt (match_stmt a b) h =
        (clone_expr-AvoidsExpr a h.0, clone_arms-AvoidsArms b h.1)
    clone_stmt-AvoidsStmt (for_stmt a b c d) h = (
      clone_pattern-AvoidsPattern b h.0,
      clone_expr-AvoidsExpr c h.1,
      clone_block-AvoidsBlock d h.2,
    )

    pub clone_stmts-AvoidsStmts :
        (x : Stmts) → ClosuresAvoidStmts names x → AvoidsStmts names (clone_stmts subst x)
    clone_stmts-AvoidsStmts no_stmts h = tt
    clone_stmts-AvoidsStmts (cons_stmt a b) h =
        (clone_stmt-AvoidsStmt a h.0, clone_stmts-AvoidsStmts b h.1)

    pub clone_arms-AvoidsArms :
        (x : Arms) → ClosuresAvoidArms names x → AvoidsArms names (clone_arms subst x)
    clone_arms-AvoidsArms no_arms h = tt
    clone_arms-AvoidsArms (cons_arm a b c d) h = (
      clone_pattern-AvoidsPattern a h.0,
      clone_expr-AvoidsExpr b h.1,
      clone_block-AvoidsBlock c h.2,
      clone_arms-AvoidsArms d h.3,
    )

    pub clone_pattern-AvoidsPattern :
        (x : Pattern) → ClosuresAvoidPattern names x → AvoidsPattern names (clone_pattern subst x)
    clone_pattern-AvoidsPattern no_pattern h = tt
    clone_pattern-AvoidsPattern wildcard h = tt
    clone_pattern-AvoidsPattern (binding a) h = tt
    clone_pattern-AvoidsPattern (variant a b c d) h = clone_pattern-AvoidsPattern d h
    clone_pattern-AvoidsPattern (literal a) h = tt
    clone_pattern-AvoidsPattern (range_pattern a b c) h =
        (clone_expr-AvoidsExpr a h.0, clone_expr-AvoidsExpr b h.1)
    clone_pattern-AvoidsPattern (or_pattern a) h = clone_patterns-AvoidsPatterns a h
    clone_pattern-AvoidsPattern (struct_pattern a b) h =
        clone_field_patterns-AvoidsFieldPatterns b h
    clone_pattern-AvoidsPattern (tuple_pattern a) h = clone_patterns-AvoidsPatterns a h
    clone_pattern-AvoidsPattern (array_pattern a) h = clone_patterns-AvoidsPatterns a h

    pub clone_patterns-AvoidsPatterns :
        (x : Patterns)
        → ClosuresAvoidPatterns names x
        → AvoidsPatterns names (clone_patterns subst x)
    clone_patterns-AvoidsPatterns no_patterns h = tt
    clone_patterns-AvoidsPatterns (cons_pattern a b) h =
        (clone_pattern-AvoidsPattern a h.0, clone_patterns-AvoidsPatterns b h.1)

    pub clone_field_patterns-AvoidsFieldPatterns :
        (x : FieldPatterns)
        → ClosuresAvoidFieldPatterns names x
        → AvoidsFieldPatterns names (clone_field_patterns subst x)
    clone_field_patterns-AvoidsFieldPatterns no_field_patterns h = tt
    clone_field_patterns-AvoidsFieldPatterns (cons_field_pattern a b c d) h =
        (clone_pattern-AvoidsPattern c h.0, clone_field_patterns-AvoidsFieldPatterns d h.1)
