-- ===== src/Interp/AstEq/Self.antt =====
-- The trees that compiler/stage0/internal/interp/ast_eq.go holds for equal to themselves: those without
-- a character in a literal pattern.
use text.Mathlib.TextPositions.{eq_refl}
use dast_lang.Base.{◌≡◌, refl, Bool, true, ◌&&◌, ==_iff, runes_eq_iff}
use dast_lang.Interp.AstEq.Types.{
  bool_eq_self, type_ptr_eq_self, type_list_eq_self, closure_param_list_eq_self,
  const_value_eq_self, quote_kind_eq_self, is_not_char,
}
use dast_lang.Interp.AstEq.Trees.{
  ast_expr_eq, expr_list_eq, quote_part_list_eq, field_init_list_eq, ast_block_eq, ast_stmt_eq,
  stmt_list_eq, ast_pattern_eq, pattern_list_eq, struct_field_pattern_list_eq, match_arm_list_eq,
}
use dast_lang.Ast.Tree.{
  Expr, Exprs, QuoteParts, FieldInits, Block, Stmt, Stmts, Arms, Pattern, Patterns, FieldPatterns,
  no_expr, ident, int_lit, char_lit, float_lit, bool_lit, string_lit, array_lit, tuple_lit, unary,
  ref_expr, compile_expr, quote_expr, macro_call, deref_expr, binary, call, method_call, closure,
  struct_lit, access, index_expr, enum_variant, block_expr, loop_expr, if_expr, match_expr,
  no_exprs, cons_expr, no_parts, cons_part, no_inits, cons_init, no_block, block, no_stmt,
  block_stmt, let_stmt, let_pattern, assign, expr_stmt, return_stmt, if_stmt, if_let, while_stmt,
  while_let, loop_stmt, break_stmt, continue_stmt, match_stmt, for_stmt, no_stmts, cons_stmt,
  no_arms, cons_arm, no_pattern, wildcard, binding, variant, literal, range_pattern, or_pattern,
  struct_pattern, tuple_pattern, array_pattern, no_patterns, cons_pattern, no_field_patterns,
  cons_field_pattern,
}

unfoldable mutual
  pub expr_has_no_char : Expr → Bool
  expr_has_no_char (array_lit a) = exprs_have_no_char a
  expr_has_no_char (tuple_lit a) = exprs_have_no_char a
  expr_has_no_char (unary _ b) = expr_has_no_char b
  expr_has_no_char (ref_expr _ b) = expr_has_no_char b
  expr_has_no_char (compile_expr _ b) = expr_has_no_char b
  expr_has_no_char (quote_expr _ b) = parts_have_no_char b
  expr_has_no_char (macro_call a b) = expr_has_no_char a && exprs_have_no_char b
  expr_has_no_char (deref_expr a) = expr_has_no_char a
  expr_has_no_char (binary _ b c) = expr_has_no_char b && expr_has_no_char c
  expr_has_no_char (call _ _ c) = exprs_have_no_char c
  expr_has_no_char (method_call a _ c _ _ _) = expr_has_no_char a && exprs_have_no_char c
  expr_has_no_char (closure _ _ c) = expr_has_no_char c
  expr_has_no_char (struct_lit _ _ c) = inits_have_no_char c
  expr_has_no_char (access a _) = expr_has_no_char a
  expr_has_no_char (index_expr a b) = expr_has_no_char a && expr_has_no_char b
  expr_has_no_char (enum_variant _ _ _ d) = expr_has_no_char d
  expr_has_no_char (block_expr a) = block_has_no_char a
  expr_has_no_char (loop_expr a) = block_has_no_char a
  expr_has_no_char (if_expr a b c) = expr_has_no_char a && expr_has_no_char b && expr_has_no_char c
  expr_has_no_char (match_expr a b) = expr_has_no_char a && arms_have_no_char b
  expr_has_no_char _ = true

  pub exprs_have_no_char : Exprs → Bool
  exprs_have_no_char (cons_expr a b) = expr_has_no_char a && exprs_have_no_char b
  exprs_have_no_char _ = true

  pub parts_have_no_char : QuoteParts → Bool
  parts_have_no_char (cons_part _ b c) = expr_has_no_char b && parts_have_no_char c
  parts_have_no_char _ = true

  pub inits_have_no_char : FieldInits → Bool
  inits_have_no_char (cons_init _ b c) = expr_has_no_char b && inits_have_no_char c
  inits_have_no_char _ = true

  pub block_has_no_char : Block → Bool
  block_has_no_char (block a) = stmts_have_no_char a
  block_has_no_char _ = true

  pub stmt_has_no_char : Stmt → Bool
  stmt_has_no_char (block_stmt a) = block_has_no_char a
  stmt_has_no_char (let_stmt _ _ _ d) = expr_has_no_char d
  stmt_has_no_char (let_pattern a _ _ d) = pattern_has_no_char a && expr_has_no_char d
  stmt_has_no_char (assign a b) = expr_has_no_char a && expr_has_no_char b
  stmt_has_no_char (expr_stmt a) = expr_has_no_char a
  stmt_has_no_char (return_stmt a) = expr_has_no_char a
  stmt_has_no_char (if_stmt a b c) =
      expr_has_no_char a && block_has_no_char b && block_has_no_char c
  stmt_has_no_char (if_let a b c d) =
      pattern_has_no_char a && expr_has_no_char b && block_has_no_char c && block_has_no_char d
  stmt_has_no_char (while_stmt _ b c) = expr_has_no_char b && block_has_no_char c
  stmt_has_no_char (while_let _ b c d) =
      pattern_has_no_char b && expr_has_no_char c && block_has_no_char d
  stmt_has_no_char (loop_stmt _ b) = block_has_no_char b
  stmt_has_no_char (break_stmt _ b) = expr_has_no_char b
  stmt_has_no_char (match_stmt a b) = expr_has_no_char a && arms_have_no_char b
  stmt_has_no_char (for_stmt _ b c d) =
      pattern_has_no_char b && expr_has_no_char c && block_has_no_char d
  stmt_has_no_char _ = true

  pub stmts_have_no_char : Stmts → Bool
  stmts_have_no_char (cons_stmt a b) = stmt_has_no_char a && stmts_have_no_char b
  stmts_have_no_char _ = true

  pub arms_have_no_char : Arms → Bool
  arms_have_no_char (cons_arm a b c d) =
      pattern_has_no_char a && expr_has_no_char b && block_has_no_char c && arms_have_no_char d
  arms_have_no_char _ = true

  pub pattern_has_no_char : Pattern → Bool
  pattern_has_no_char (variant _ _ _ d) = pattern_has_no_char d
  pattern_has_no_char (literal a) = is_not_char a
  pattern_has_no_char (range_pattern a b _) = expr_has_no_char a && expr_has_no_char b
  pattern_has_no_char (or_pattern a) = patterns_have_no_char a
  pattern_has_no_char (struct_pattern _ b) = field_patterns_have_no_char b
  pattern_has_no_char (tuple_pattern a) = patterns_have_no_char a
  pattern_has_no_char (array_pattern a) = patterns_have_no_char a
  pattern_has_no_char _ = true

  pub patterns_have_no_char : Patterns → Bool
  patterns_have_no_char (cons_pattern a b) = pattern_has_no_char a && patterns_have_no_char b
  patterns_have_no_char _ = true

  pub field_patterns_have_no_char : FieldPatterns → Bool
  field_patterns_have_no_char (cons_field_pattern _ _ c d) =
      pattern_has_no_char c && field_patterns_have_no_char d
  field_patterns_have_no_char _ = true

mutual
  unfolding ast_expr_eq expr_has_no_char

  pub ast_expr_eq_self : (x : Expr) → ast_expr_eq x x ≡ expr_has_no_char x
  ast_expr_eq_self no_expr = refl
  ast_expr_eq_self (ident a) = eq_refl a
  ast_expr_eq_self (int_lit a) = (==_iff a a).1 refl
  ast_expr_eq_self (char_lit a) = (==_iff a a).1 refl
  ast_expr_eq_self (float_lit a) = eq_refl a
  ast_expr_eq_self (bool_lit a) = bool_eq_self a
  ast_expr_eq_self (string_lit a) = (runes_eq_iff a a).1 refl
  ast_expr_eq_self (array_lit a) = expr_list_eq_self a
  ast_expr_eq_self (tuple_lit a) = expr_list_eq_self a
  ast_expr_eq_self (unary a b) = rw (eq_refl a, ast_expr_eq_self b) refl
  ast_expr_eq_self (ref_expr a b) = rw (bool_eq_self a, ast_expr_eq_self b) refl
  ast_expr_eq_self (compile_expr a b) = rw ((==_iff a a).1 refl, ast_expr_eq_self b) refl
  ast_expr_eq_self (quote_expr a b) = rw (quote_kind_eq_self a, quote_part_list_eq_self b) refl
  ast_expr_eq_self (macro_call a b) = rw (ast_expr_eq_self a, expr_list_eq_self b) refl
  ast_expr_eq_self (deref_expr a) = ast_expr_eq_self a
  ast_expr_eq_self (binary a b c) = rw (eq_refl a, ast_expr_eq_self b, ast_expr_eq_self c) refl
  ast_expr_eq_self (call a b c) = rw (eq_refl a, type_list_eq_self b, expr_list_eq_self c) refl
  ast_expr_eq_self (method_call a b c d e f) =
      rw (eq_refl b, eq_refl d, bool_eq_self e, eq_refl f, ast_expr_eq_self a, expr_list_eq_self c)
        refl
  ast_expr_eq_self (closure a b c) =
      rw (closure_param_list_eq_self a, type_ptr_eq_self b, ast_expr_eq_self c) refl
  ast_expr_eq_self (struct_lit a b c) =
      rw (eq_refl a, type_list_eq_self b, field_init_list_eq_self c) refl
  ast_expr_eq_self (access a b) = rw (eq_refl b, ast_expr_eq_self a) refl
  ast_expr_eq_self (index_expr a b) = rw (ast_expr_eq_self a, ast_expr_eq_self b) refl
  ast_expr_eq_self (enum_variant a b c d) =
      rw (eq_refl a, eq_refl c, type_list_eq_self b, ast_expr_eq_self d) refl
  ast_expr_eq_self (block_expr a) = ast_block_eq_self a
  ast_expr_eq_self (loop_expr a) = ast_block_eq_self a
  ast_expr_eq_self (if_expr a b c) =
      rw (ast_expr_eq_self a, ast_expr_eq_self b, ast_expr_eq_self c) refl
  ast_expr_eq_self (match_expr a b) = rw (ast_expr_eq_self a, match_arm_list_eq_self b) refl

  pub expr_list_eq_self : (x : Exprs) → expr_list_eq x x ≡ exprs_have_no_char x
  expr_list_eq_self no_exprs = refl
  expr_list_eq_self (cons_expr a b) = rw (ast_expr_eq_self a, expr_list_eq_self b) refl

  pub quote_part_list_eq_self : (x : QuoteParts) → quote_part_list_eq x x ≡ parts_have_no_char x
  quote_part_list_eq_self no_parts = refl
  quote_part_list_eq_self (cons_part a b c) =
      rw ((runes_eq_iff a a).1 refl, ast_expr_eq_self b, quote_part_list_eq_self c) refl

  pub field_init_list_eq_self : (x : FieldInits) → field_init_list_eq x x ≡ inits_have_no_char x
  field_init_list_eq_self no_inits = refl
  field_init_list_eq_self (cons_init a b c) =
      rw (eq_refl a, ast_expr_eq_self b, field_init_list_eq_self c) refl

  pub ast_block_eq_self : (x : Block) → ast_block_eq x x ≡ block_has_no_char x
  ast_block_eq_self no_block = refl
  ast_block_eq_self (block a) = stmt_list_eq_self a

  pub ast_stmt_eq_self : (x : Stmt) → ast_stmt_eq x x ≡ stmt_has_no_char x
  ast_stmt_eq_self no_stmt = refl
  ast_stmt_eq_self (block_stmt a) = ast_block_eq_self a
  ast_stmt_eq_self (let_stmt a b c d) =
      rw (eq_refl a, bool_eq_self b, type_ptr_eq_self c, ast_expr_eq_self d) refl
  ast_stmt_eq_self (let_pattern a b c d) =
      rw (bool_eq_self b, type_ptr_eq_self c, ast_pattern_eq_self a, ast_expr_eq_self d) refl
  ast_stmt_eq_self (assign a b) = rw (ast_expr_eq_self a, ast_expr_eq_self b) refl
  ast_stmt_eq_self (expr_stmt a) = ast_expr_eq_self a
  ast_stmt_eq_self (return_stmt a) = ast_expr_eq_self a
  ast_stmt_eq_self (if_stmt a b c) =
      rw (ast_expr_eq_self a, ast_block_eq_self b, ast_block_eq_self c) refl
  ast_stmt_eq_self (if_let a b c d) =
      rw (ast_pattern_eq_self a, ast_expr_eq_self b, ast_block_eq_self c, ast_block_eq_self d) refl
  ast_stmt_eq_self (while_stmt a b c) = rw (eq_refl a, ast_expr_eq_self b, ast_block_eq_self c) refl
  ast_stmt_eq_self (while_let a b c d) =
      rw (eq_refl a, ast_pattern_eq_self b, ast_expr_eq_self c, ast_block_eq_self d) refl
  ast_stmt_eq_self (loop_stmt a b) = rw (eq_refl a, ast_block_eq_self b) refl
  ast_stmt_eq_self (break_stmt a b) = rw (eq_refl a, ast_expr_eq_self b) refl
  ast_stmt_eq_self (continue_stmt a) = eq_refl a
  ast_stmt_eq_self (match_stmt a b) = rw (ast_expr_eq_self a, match_arm_list_eq_self b) refl
  ast_stmt_eq_self (for_stmt a b c d) =
      rw (eq_refl a, ast_pattern_eq_self b, ast_expr_eq_self c, ast_block_eq_self d) refl

  pub stmt_list_eq_self : (x : Stmts) → stmt_list_eq x x ≡ stmts_have_no_char x
  stmt_list_eq_self no_stmts = refl
  stmt_list_eq_self (cons_stmt a b) = rw (ast_stmt_eq_self a, stmt_list_eq_self b) refl

  pub match_arm_list_eq_self : (x : Arms) → match_arm_list_eq x x ≡ arms_have_no_char x
  match_arm_list_eq_self no_arms = refl
  match_arm_list_eq_self (cons_arm a b c d) =
      rw (ast_pattern_eq_self a, ast_expr_eq_self b, ast_block_eq_self c, match_arm_list_eq_self d)
        refl

  pub ast_pattern_eq_self : (x : Pattern) → ast_pattern_eq x x ≡ pattern_has_no_char x
  ast_pattern_eq_self no_pattern = refl
  ast_pattern_eq_self wildcard = refl
  ast_pattern_eq_self (binding a) = eq_refl a
  ast_pattern_eq_self (variant a b c d) =
      rw (eq_refl a, eq_refl b, eq_refl c, ast_pattern_eq_self d) refl
  ast_pattern_eq_self (literal a) = const_value_eq_self a
  ast_pattern_eq_self (range_pattern a b c) =
      rw (bool_eq_self c, ast_expr_eq_self a, ast_expr_eq_self b) refl
  ast_pattern_eq_self (or_pattern a) = pattern_list_eq_self a
  ast_pattern_eq_self (struct_pattern a b) =
      rw (eq_refl a, struct_field_pattern_list_eq_self b) refl
  ast_pattern_eq_self (tuple_pattern a) = pattern_list_eq_self a
  ast_pattern_eq_self (array_pattern a) = pattern_list_eq_self a

  pub pattern_list_eq_self : (x : Patterns) → pattern_list_eq x x ≡ patterns_have_no_char x
  pattern_list_eq_self no_patterns = refl
  pattern_list_eq_self (cons_pattern a b) = rw (ast_pattern_eq_self a, pattern_list_eq_self b) refl

  pub struct_field_pattern_list_eq_self :
      (x : FieldPatterns) → struct_field_pattern_list_eq x x ≡ field_patterns_have_no_char x
  struct_field_pattern_list_eq_self no_field_patterns = refl
  struct_field_pattern_list_eq_self (cons_field_pattern a b c d) =
      rw (eq_refl a, eq_refl b, ast_pattern_eq_self c, struct_field_pattern_list_eq_self d) refl
