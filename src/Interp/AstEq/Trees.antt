-- ===== src/Interp/AstEq/Trees.antt =====
-- `astExprEq`, `astStmtEq`, `astBlockEq` and `astPatternEq` of
-- compiler/stage0/internal/interp/ast_eq.go, with the loops over their lists.
use text.Mathlib.Text.{◌==◌ as str_eq}
use dast_lang.Base.{Bool, true, false, ◌&&◌, ◌==◌, runes_eq}
use dast_lang.Ir.Fold.{bool_eq}
use dast_lang.Interp.AstEq.Types.{
  type_ptr_eq, type_list_eq, closure_param_list_eq, const_value_eq, quote_kind_eq,
}
use dast_lang.Ast.Tree.{
  Expr, Exprs, QuoteParts, FieldInits, Block, Stmt, Stmts, Arms, Pattern, Patterns, FieldPatterns,
  no_expr, ident, int_lit, char_lit, float_lit, bool_lit, string_lit, array_lit, tuple_lit, unary,
  ref_expr, compile_expr, quote_expr, macro_call, deref_expr, binary, call, method_call, closure,
  struct_lit, access, index_expr, enum_variant, block_expr, loop_expr, if_expr, match_expr,
  no_exprs, cons_expr, no_parts, cons_part, no_inits, cons_init, no_block, block, no_stmt,
  block_stmt, let_stmt, let_pattern, assign, expr_stmt, return_stmt, if_stmt, if_let, while_stmt,
  while_let, loop_stmt, break_stmt, continue_stmt, match_stmt, for_stmt, no_stmts, cons_stmt,
  no_arms, cons_arm, no_pattern, wildcard, binding, variant, literal, range_pattern, or_pattern,
  struct_pattern, tuple_pattern, array_pattern, no_patterns, cons_pattern, no_field_patterns,
  cons_field_pattern,
}

unfoldable mutual
  unfolding const_value_eq runes_eq closure_param_list_eq type_ptr_eq type_list_eq quote_kind_eq

  pub ast_expr_eq : Expr → Expr → Bool
  ast_expr_eq no_expr no_expr = true
  ast_expr_eq (ident a) (ident a') = str_eq a a'
  ast_expr_eq (int_lit a) (int_lit a') = a == a'
  ast_expr_eq (char_lit a) (char_lit a') = a == a'
  ast_expr_eq (float_lit a) (float_lit a') = str_eq a a'
  ast_expr_eq (bool_lit a) (bool_lit a') = bool_eq a a'
  ast_expr_eq (string_lit a) (string_lit a') = runes_eq a a'
  ast_expr_eq (array_lit a) (array_lit a') = expr_list_eq a a'
  ast_expr_eq (tuple_lit a) (tuple_lit a') = expr_list_eq a a'
  ast_expr_eq (unary a b) (unary a' b') = str_eq a a' && ast_expr_eq b b'
  ast_expr_eq (ref_expr a b) (ref_expr a' b') = bool_eq a a' && ast_expr_eq b b'
  ast_expr_eq (compile_expr a b) (compile_expr a' b') = a == a' && ast_expr_eq b b'
  ast_expr_eq (quote_expr a b) (quote_expr a' b') = quote_kind_eq a a' && quote_part_list_eq b b'
  ast_expr_eq (macro_call a b) (macro_call a' b') = ast_expr_eq a a' && expr_list_eq b b'
  ast_expr_eq (deref_expr a) (deref_expr a') = ast_expr_eq a a'
  ast_expr_eq (binary a b c) (binary a' b' c') = str_eq a a' && ast_expr_eq b b' && ast_expr_eq c c'
  ast_expr_eq (call a b c) (call a' b' c') = str_eq a a' && type_list_eq b b' && expr_list_eq c c'
  ast_expr_eq (method_call a b c d e f) (method_call a' b' c' d' e' f') =
      str_eq b b'
      && str_eq d d'
      && bool_eq e e'
      && str_eq f f'
      && ast_expr_eq a a'
      && expr_list_eq c c'
  ast_expr_eq (closure a b c) (closure a' b' c') =
      closure_param_list_eq a a' && type_ptr_eq b b' && ast_expr_eq c c'
  ast_expr_eq (struct_lit a b c) (struct_lit a' b' c') =
      str_eq a a' && type_list_eq b b' && field_init_list_eq c c'
  ast_expr_eq (access a b) (access a' b') = str_eq b b' && ast_expr_eq a a'
  ast_expr_eq (index_expr a b) (index_expr a' b') = ast_expr_eq a a' && ast_expr_eq b b'
  ast_expr_eq (enum_variant a b c d) (enum_variant a' b' c' d') =
      str_eq a a' && str_eq c c' && type_list_eq b b' && ast_expr_eq d d'
  ast_expr_eq (block_expr a) (block_expr a') = ast_block_eq a a'
  ast_expr_eq (loop_expr a) (loop_expr a') = ast_block_eq a a'
  ast_expr_eq (if_expr a b c) (if_expr a' b' c') =
      ast_expr_eq a a' && ast_expr_eq b b' && ast_expr_eq c c'
  ast_expr_eq (match_expr a b) (match_expr a' b') = ast_expr_eq a a' && match_arm_list_eq b b'
  ast_expr_eq _ _ = false

  pub expr_list_eq : Exprs → Exprs → Bool
  expr_list_eq no_exprs no_exprs = true
  expr_list_eq (cons_expr a b) (cons_expr a' b') = ast_expr_eq a a' && expr_list_eq b b'
  expr_list_eq _ _ = false

  pub quote_part_list_eq : QuoteParts → QuoteParts → Bool
  quote_part_list_eq no_parts no_parts = true
  quote_part_list_eq (cons_part a b c) (cons_part a' b' c') =
      runes_eq a a' && ast_expr_eq b b' && quote_part_list_eq c c'
  quote_part_list_eq _ _ = false

  pub field_init_list_eq : FieldInits → FieldInits → Bool
  field_init_list_eq no_inits no_inits = true
  field_init_list_eq (cons_init a b c) (cons_init a' b' c') =
      str_eq a a' && ast_expr_eq b b' && field_init_list_eq c c'
  field_init_list_eq _ _ = false

  pub ast_block_eq : Block → Block → Bool
  ast_block_eq no_block no_block = true
  ast_block_eq (block a) (block a') = stmt_list_eq a a'
  ast_block_eq _ _ = false

  pub ast_stmt_eq : Stmt → Stmt → Bool
  ast_stmt_eq no_stmt no_stmt = true
  ast_stmt_eq (block_stmt a) (block_stmt a') = ast_block_eq a a'
  ast_stmt_eq (let_stmt a b c d) (let_stmt a' b' c' d') =
      str_eq a a' && bool_eq b b' && type_ptr_eq c c' && ast_expr_eq d d'
  ast_stmt_eq (let_pattern a b c d) (let_pattern a' b' c' d') =
      bool_eq b b' && type_ptr_eq c c' && ast_pattern_eq a a' && ast_expr_eq d d'
  ast_stmt_eq (assign a b) (assign a' b') = ast_expr_eq a a' && ast_expr_eq b b'
  ast_stmt_eq (expr_stmt a) (expr_stmt a') = ast_expr_eq a a'
  ast_stmt_eq (return_stmt a) (return_stmt a') = ast_expr_eq a a'
  ast_stmt_eq (if_stmt a b c) (if_stmt a' b' c') =
      ast_expr_eq a a' && ast_block_eq b b' && ast_block_eq c c'
  ast_stmt_eq (if_let a b c d) (if_let a' b' c' d') =
      ast_pattern_eq a a' && ast_expr_eq b b' && ast_block_eq c c' && ast_block_eq d d'
  ast_stmt_eq (while_stmt a b c) (while_stmt a' b' c') =
      str_eq a a' && ast_expr_eq b b' && ast_block_eq c c'
  ast_stmt_eq (while_let a b c d) (while_let a' b' c' d') =
      str_eq a a' && ast_pattern_eq b b' && ast_expr_eq c c' && ast_block_eq d d'
  ast_stmt_eq (loop_stmt a b) (loop_stmt a' b') = str_eq a a' && ast_block_eq b b'
  ast_stmt_eq (break_stmt a b) (break_stmt a' b') = str_eq a a' && ast_expr_eq b b'
  ast_stmt_eq (continue_stmt a) (continue_stmt a') = str_eq a a'
  ast_stmt_eq (match_stmt a b) (match_stmt a' b') = ast_expr_eq a a' && match_arm_list_eq b b'
  ast_stmt_eq (for_stmt a b c d) (for_stmt a' b' c' d') =
      str_eq a a' && ast_pattern_eq b b' && ast_expr_eq c c' && ast_block_eq d d'
  ast_stmt_eq _ _ = false

  pub stmt_list_eq : Stmts → Stmts → Bool
  stmt_list_eq no_stmts no_stmts = true
  stmt_list_eq (cons_stmt a b) (cons_stmt a' b') = ast_stmt_eq a a' && stmt_list_eq b b'
  stmt_list_eq _ _ = false

  pub match_arm_list_eq : Arms → Arms → Bool
  match_arm_list_eq no_arms no_arms = true
  match_arm_list_eq (cons_arm a b c d) (cons_arm a' b' c' d') =
      ast_pattern_eq a a' && ast_expr_eq b b' && ast_block_eq c c' && match_arm_list_eq d d'
  match_arm_list_eq _ _ = false

  pub ast_pattern_eq : Pattern → Pattern → Bool
  ast_pattern_eq no_pattern no_pattern = true
  ast_pattern_eq wildcard wildcard = true
  ast_pattern_eq (binding a) (binding a') = str_eq a a'
  ast_pattern_eq (variant a b c d) (variant a' b' c' d') =
      str_eq a a' && str_eq b b' && str_eq c c' && ast_pattern_eq d d'
  ast_pattern_eq (literal a) (literal a') = const_value_eq a a'
  ast_pattern_eq (range_pattern a b c) (range_pattern a' b' c') =
      bool_eq c c' && ast_expr_eq a a' && ast_expr_eq b b'
  ast_pattern_eq (or_pattern a) (or_pattern a') = pattern_list_eq a a'
  ast_pattern_eq (struct_pattern a b) (struct_pattern a' b') =
      str_eq a a' && struct_field_pattern_list_eq b b'
  ast_pattern_eq (tuple_pattern a) (tuple_pattern a') = pattern_list_eq a a'
  ast_pattern_eq (array_pattern a) (array_pattern a') = pattern_list_eq a a'
  ast_pattern_eq _ _ = false

  pub pattern_list_eq : Patterns → Patterns → Bool
  pattern_list_eq no_patterns no_patterns = true
  pattern_list_eq (cons_pattern a b) (cons_pattern a' b') =
      ast_pattern_eq a a' && pattern_list_eq b b'
  pattern_list_eq _ _ = false

  pub struct_field_pattern_list_eq : FieldPatterns → FieldPatterns → Bool
  struct_field_pattern_list_eq no_field_patterns no_field_patterns = true
  struct_field_pattern_list_eq (cons_field_pattern a b c d) (cons_field_pattern a' b' c' d') =
      str_eq a a' && str_eq b b' && ast_pattern_eq c c' && struct_field_pattern_list_eq d d'
  struct_field_pattern_list_eq _ _ = false
