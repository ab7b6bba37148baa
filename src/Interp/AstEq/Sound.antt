-- ===== src/Interp/AstEq/Sound.antt =====
-- Trees that compiler/stage0/internal/interp/ast_eq.go holds for equal are equal.
use text.Mathlib.TextEquality.{eq_iff}
use dast_lang.Base.{◌≡◌, refl, true, ==_iff, runes_eq_iff, both, all_three, all_four, all_six}
use dast_lang.Interp.AstEq.Types.{
  bool_eq_sound, type_ptr_eq_sound, type_list_eq_sound, closure_param_list_eq_sound,
  const_value_eq_sound, quote_kind_eq_sound,
}
use dast_lang.Interp.AstEq.Trees.{
  ast_expr_eq, expr_list_eq, quote_part_list_eq, field_init_list_eq, ast_block_eq, ast_stmt_eq,
  stmt_list_eq, ast_pattern_eq, pattern_list_eq, struct_field_pattern_list_eq, match_arm_list_eq,
}
use dast_lang.Ast.Tree.{
  Expr, Exprs, QuoteParts, FieldInits, Block, Stmt, Stmts, Arms, Pattern, Patterns, FieldPatterns,
  no_expr, ident, int_lit, char_lit, float_lit, bool_lit, string_lit, array_lit, tuple_lit, unary,
  ref_expr, compile_expr, quote_expr, macro_call, deref_expr, binary, call, method_call, closure,
  struct_lit, access, index_expr, enum_variant, block_expr, loop_expr, if_expr, match_expr,
  no_exprs, cons_expr, no_parts, cons_part, no_inits, cons_init, no_block, block, no_stmt,
  block_stmt, let_stmt, let_pattern, assign, expr_stmt, return_stmt, if_stmt, if_let, while_stmt,
  while_let, loop_stmt, break_stmt, continue_stmt, match_stmt, for_stmt, no_stmts, cons_stmt,
  no_arms, cons_arm, no_pattern, wildcard, binding, variant, literal, range_pattern, or_pattern,
  struct_pattern, tuple_pattern, array_pattern, no_patterns, cons_pattern, no_field_patterns,
  cons_field_pattern,
}

mutual
  unfolding ast_expr_eq

  pub ast_expr_eq_sound : (x y : Expr) → ast_expr_eq x y ≡ true → x ≡ y
  ast_expr_eq_sound no_expr no_expr h = refl
  ast_expr_eq_sound (ident a) (ident a') h = cc ((eq_iff a a').0 h)
  ast_expr_eq_sound (int_lit a) (int_lit a') h = cc ((==_iff a a').0 h)
  ast_expr_eq_sound (char_lit a) (char_lit a') h = cc ((==_iff a a').0 h)
  ast_expr_eq_sound (float_lit a) (float_lit a') h = cc ((eq_iff a a').0 h)
  ast_expr_eq_sound (bool_lit a) (bool_lit a') h = cc (bool_eq_sound a a' h)
  ast_expr_eq_sound (string_lit a) (string_lit a') h = cc ((runes_eq_iff a a').0 h)
  ast_expr_eq_sound (array_lit a) (array_lit a') h = cc (expr_list_eq_sound a a' h)
  ast_expr_eq_sound (tuple_lit a) (tuple_lit a') h = cc (expr_list_eq_sound a a' h)
  ast_expr_eq_sound (unary a b) (unary a' b') h =
      let (p, q) = both h in cc ((eq_iff a a').0 p, ast_expr_eq_sound b b' q)
  ast_expr_eq_sound (ref_expr a b) (ref_expr a' b') h =
      let (p, q) = both h in cc (bool_eq_sound a a' p, ast_expr_eq_sound b b' q)
  ast_expr_eq_sound (compile_expr a b) (compile_expr a' b') h =
      let (p, q) = both h in cc ((==_iff a a').0 p, ast_expr_eq_sound b b' q)
  ast_expr_eq_sound (quote_expr a b) (quote_expr a' b') h =
      let (p, q) = both h in cc (quote_kind_eq_sound a a' p, quote_part_list_eq_sound b b' q)
  ast_expr_eq_sound (macro_call a b) (macro_call a' b') h =
      let (p, q) = both h in cc (ast_expr_eq_sound a a' p, expr_list_eq_sound b b' q)
  ast_expr_eq_sound (deref_expr a) (deref_expr a') h = cc (ast_expr_eq_sound a a' h)
  ast_expr_eq_sound (binary a b c) (binary a' b' c') h =
      let (p, q, r) = all_three h in
      cc ((eq_iff a a').0 p, ast_expr_eq_sound b b' q, ast_expr_eq_sound c c' r)
  ast_expr_eq_sound (call a b c) (call a' b' c') h =
      let (p, q, r) = all_three h in
      cc ((eq_iff a a').0 p, type_list_eq_sound b b' q, expr_list_eq_sound c c' r)
  ast_expr_eq_sound (method_call a b c d e f) (method_call a' b' c' d' e' f') h =
      let (p, q, r, s, t, u) = all_six h in
      cc (
        ast_expr_eq_sound a a' t,
        (eq_iff b b').0 p,
        expr_list_eq_sound c c' u,
        (eq_iff d d').0 q,
        bool_eq_sound e e' r,
        (eq_iff f f').0 s,
      )
  ast_expr_eq_sound (closure a b c) (closure a' b' c') h =
      let (p, q, r) = all_three h in
      cc (closure_param_list_eq_sound a a' p, type_ptr_eq_sound b b' q, ast_expr_eq_sound c c' r)
  ast_expr_eq_sound (struct_lit a b c) (struct_lit a' b' c') h =
      let (p, q, r) = all_three h in
      cc ((eq_iff a a').0 p, type_list_eq_sound b b' q, field_init_list_eq_sound c c' r)
  ast_expr_eq_sound (access a b) (access a' b') h =
      let (p, q) = both h in cc (ast_expr_eq_sound a a' q, (eq_iff b b').0 p)
  ast_expr_eq_sound (index_expr a b) (index_expr a' b') h =
      let (p, q) = both h in cc (ast_expr_eq_sound a a' p, ast_expr_eq_sound b b' q)
  ast_expr_eq_sound (enum_variant a b c d) (enum_variant a' b' c' d') h =
      let (p, q, r, s) = all_four h in
      cc ((eq_iff a a').0 p, type_list_eq_sound b b' r, (eq_iff c c').0 q, ast_expr_eq_sound d d' s)
  ast_expr_eq_sound (block_expr a) (block_expr a') h = cc (ast_block_eq_sound a a' h)
  ast_expr_eq_sound (loop_expr a) (loop_expr a') h = cc (ast_block_eq_sound a a' h)
  ast_expr_eq_sound (if_expr a b c) (if_expr a' b' c') h =
      let (p, q, r) = all_three h in
      cc (ast_expr_eq_sound a a' p, ast_expr_eq_sound b b' q, ast_expr_eq_sound c c' r)
  ast_expr_eq_sound (match_expr a b) (match_expr a' b') h =
      let (p, q) = both h in cc (ast_expr_eq_sound a a' p, match_arm_list_eq_sound b b' q)
  ast_expr_eq_sound _ _ h = cc

  pub expr_list_eq_sound : (x y : Exprs) → expr_list_eq x y ≡ true → x ≡ y
  expr_list_eq_sound no_exprs no_exprs h = refl
  expr_list_eq_sound (cons_expr a b) (cons_expr a' b') h =
      let (p, q) = both h in cc (ast_expr_eq_sound a a' p, expr_list_eq_sound b b' q)
  expr_list_eq_sound _ _ h = cc

  pub quote_part_list_eq_sound : (x y : QuoteParts) → quote_part_list_eq x y ≡ true → x ≡ y
  quote_part_list_eq_sound no_parts no_parts h = refl
  quote_part_list_eq_sound (cons_part a b c) (cons_part a' b' c') h =
      let (p, q, r) = all_three h in
      cc ((runes_eq_iff a a').0 p, ast_expr_eq_sound b b' q, quote_part_list_eq_sound c c' r)
  quote_part_list_eq_sound _ _ h = cc

  pub field_init_list_eq_sound : (x y : FieldInits) → field_init_list_eq x y ≡ true → x ≡ y
  field_init_list_eq_sound no_inits no_inits h = refl
  field_init_list_eq_sound (cons_init a b c) (cons_init a' b' c') h =
      let (p, q, r) = all_three h in
      cc ((eq_iff a a').0 p, ast_expr_eq_sound b b' q, field_init_list_eq_sound c c' r)
  field_init_list_eq_sound _ _ h = cc

  pub ast_block_eq_sound : (x y : Block) → ast_block_eq x y ≡ true → x ≡ y
  ast_block_eq_sound no_block no_block h = refl
  ast_block_eq_sound (block a) (block a') h = cc (stmt_list_eq_sound a a' h)
  ast_block_eq_sound _ _ h = cc

  pub ast_stmt_eq_sound : (x y : Stmt) → ast_stmt_eq x y ≡ true → x ≡ y
  ast_stmt_eq_sound no_stmt no_stmt h = refl
  ast_stmt_eq_sound (block_stmt a) (block_stmt a') h = cc (ast_block_eq_sound a a' h)
  ast_stmt_eq_sound (let_stmt a b c d) (let_stmt a' b' c' d') h =
      let (p, q, r, s) = all_four h in
      cc (
        (eq_iff a a').0 p,
        bool_eq_sound b b' q,
        type_ptr_eq_sound c c' r,
        ast_expr_eq_sound d d' s,
      )
  ast_stmt_eq_sound (let_pattern a b c d) (let_pattern a' b' c' d') h =
      let (p, q, r, s) = all_four h in
      cc (
        ast_pattern_eq_sound a a' r,
        bool_eq_sound b b' p,
        type_ptr_eq_sound c c' q,
        ast_expr_eq_sound d d' s,
      )
  ast_stmt_eq_sound (assign a b) (assign a' b') h =
      let (p, q) = both h in cc (ast_expr_eq_sound a a' p, ast_expr_eq_sound b b' q)
  ast_stmt_eq_sound (expr_stmt a) (expr_stmt a') h = cc (ast_expr_eq_sound a a' h)
  ast_stmt_eq_sound (return_stmt a) (return_stmt a') h = cc (ast_expr_eq_sound a a' h)
  ast_stmt_eq_sound (if_stmt a b c) (if_stmt a' b' c') h =
      let (p, q, r) = all_three h in
      cc (ast_expr_eq_sound a a' p, ast_block_eq_sound b b' q, ast_block_eq_sound c c' r)
  ast_stmt_eq_sound (if_let a b c d) (if_let a' b' c' d') h =
      let (p, q, r, s) = all_four h in
      cc (
        ast_pattern_eq_sound a a' p,
        ast_expr_eq_sound b b' q,
        ast_block_eq_sound c c' r,
        ast_block_eq_sound d d' s,
      )
  ast_stmt_eq_sound (while_stmt a b c) (while_stmt a' b' c') h =
      let (p, q, r) = all_three h in
      cc ((eq_iff a a').0 p, ast_expr_eq_sound b b' q, ast_block_eq_sound c c' r)
  ast_stmt_eq_sound (while_let a b c d) (while_let a' b' c' d') h =
      let (p, q, r, s) = all_four h in
      cc (
        (eq_iff a a').0 p,
        ast_pattern_eq_sound b b' q,
        ast_expr_eq_sound c c' r,
        ast_block_eq_sound d d' s,
      )
  ast_stmt_eq_sound (loop_stmt a b) (loop_stmt a' b') h =
      let (p, q) = both h in cc ((eq_iff a a').0 p, ast_block_eq_sound b b' q)
  ast_stmt_eq_sound (break_stmt a b) (break_stmt a' b') h =
      let (p, q) = both h in cc ((eq_iff a a').0 p, ast_expr_eq_sound b b' q)
  ast_stmt_eq_sound (continue_stmt a) (continue_stmt a') h = cc ((eq_iff a a').0 h)
  ast_stmt_eq_sound (match_stmt a b) (match_stmt a' b') h =
      let (p, q) = both h in cc (ast_expr_eq_sound a a' p, match_arm_list_eq_sound b b' q)
  ast_stmt_eq_sound (for_stmt a b c d) (for_stmt a' b' c' d') h =
      let (p, q, r, s) = all_four h in
      cc (
        (eq_iff a a').0 p,
        ast_pattern_eq_sound b b' q,
        ast_expr_eq_sound c c' r,
        ast_block_eq_sound d d' s,
      )
  ast_stmt_eq_sound _ _ h = cc

  pub stmt_list_eq_sound : (x y : Stmts) → stmt_list_eq x y ≡ true → x ≡ y
  stmt_list_eq_sound no_stmts no_stmts h = refl
  stmt_list_eq_sound (cons_stmt a b) (cons_stmt a' b') h =
      let (p, q) = both h in cc (ast_stmt_eq_sound a a' p, stmt_list_eq_sound b b' q)
  stmt_list_eq_sound _ _ h = cc

  pub match_arm_list_eq_sound : (x y : Arms) → match_arm_list_eq x y ≡ true → x ≡ y
  match_arm_list_eq_sound no_arms no_arms h = refl
  match_arm_list_eq_sound (cons_arm a b c d) (cons_arm a' b' c' d') h =
      let (p, q, r, s) = all_four h in
      cc (
        ast_pattern_eq_sound a a' p,
        ast_expr_eq_sound b b' q,
        ast_block_eq_sound c c' r,
        match_arm_list_eq_sound d d' s,
      )
  match_arm_list_eq_sound _ _ h = cc

  pub ast_pattern_eq_sound : (x y : Pattern) → ast_pattern_eq x y ≡ true → x ≡ y
  ast_pattern_eq_sound no_pattern no_pattern h = refl
  ast_pattern_eq_sound wildcard wildcard h = refl
  ast_pattern_eq_sound (binding a) (binding a') h = cc ((eq_iff a a').0 h)
  ast_pattern_eq_sound (variant a b c d) (variant a' b' c' d') h =
      let (p, q, r, s) = all_four h in
      cc ((eq_iff a a').0 p, (eq_iff b b').0 q, (eq_iff c c').0 r, ast_pattern_eq_sound d d' s)
  ast_pattern_eq_sound (literal a) (literal a') h = cc (const_value_eq_sound a a' h)
  ast_pattern_eq_sound (range_pattern a b c) (range_pattern a' b' c') h =
      let (p, q, r) = all_three h in
      cc (ast_expr_eq_sound a a' q, ast_expr_eq_sound b b' r, bool_eq_sound c c' p)
  ast_pattern_eq_sound (or_pattern a) (or_pattern a') h = cc (pattern_list_eq_sound a a' h)
  ast_pattern_eq_sound (struct_pattern a b) (struct_pattern a' b') h =
      let (p, q) = both h in cc ((eq_iff a a').0 p, struct_field_pattern_list_eq_sound b b' q)
  ast_pattern_eq_sound (tuple_pattern a) (tuple_pattern a') h = cc (pattern_list_eq_sound a a' h)
  ast_pattern_eq_sound (array_pattern a) (array_pattern a') h = cc (pattern_list_eq_sound a a' h)
  ast_pattern_eq_sound _ _ h = cc

  pub pattern_list_eq_sound : (x y : Patterns) → pattern_list_eq x y ≡ true → x ≡ y
  pattern_list_eq_sound no_patterns no_patterns h = refl
  pattern_list_eq_sound (cons_pattern a b) (cons_pattern a' b') h =
      let (p, q) = both h in cc (ast_pattern_eq_sound a a' p, pattern_list_eq_sound b b' q)
  pattern_list_eq_sound _ _ h = cc

  pub struct_field_pattern_list_eq_sound :
      (x y : FieldPatterns) → struct_field_pattern_list_eq x y ≡ true → x ≡ y
  struct_field_pattern_list_eq_sound no_field_patterns no_field_patterns h = refl
  struct_field_pattern_list_eq_sound (cons_field_pattern a b c d) (cons_field_pattern a' b' c' d')
        h =
      let (p, q, r, s) = all_four h in
      cc (
        (eq_iff a a').0 p,
        (eq_iff b b').0 q,
        ast_pattern_eq_sound c c' r,
        struct_field_pattern_list_eq_sound d d' s,
      )
  struct_field_pattern_list_eq_sound _ _ h = cc
