-- ===== src/Typecheck/Clone/Trees.antt =====
-- `cloneExpr`, `cloneStmt`, `cloneBlock`, `clonePattern` and `cloneFunction` of
-- compiler/stage0/internal/typecheck/clone.go. A closure has no case in the switch and stays as it is.
use dast_lang.Base.{false, [], List, ◌∷◌}
use dast_lang.Ast.Items.{Function, Param}
use dast_lang.Ast.Tree.{
  Expr, Exprs, QuoteParts, FieldInits, Block, Stmt, Stmts, Arms, Pattern, Patterns, FieldPatterns,
  array_lit, tuple_lit, unary, ref_expr, compile_expr, quote_expr, macro_call, deref_expr, binary,
  call, method_call, struct_lit, access, index_expr, enum_variant, block_expr, loop_expr, if_expr,
  match_expr, no_exprs, cons_expr, no_parts, cons_part, no_inits, cons_init, no_block, block,
  block_stmt, let_stmt, let_pattern, assign, expr_stmt, return_stmt, if_stmt, if_let, while_stmt,
  while_let, loop_stmt, break_stmt, match_stmt, for_stmt, no_stmts, cons_stmt, no_arms, cons_arm,
  variant, range_pattern, or_pattern, struct_pattern, tuple_pattern, array_pattern, no_patterns,
  cons_pattern, no_field_patterns, cons_field_pattern,
}
use dast_lang.Typecheck.Clone.Types.{Subst, clone_type, clone_elem, clone_types, clone_param}

unfoldable mutual
  unfolding clone_type

  pub clone_expr : Subst → Expr → Expr
  clone_expr subst (array_lit a) = array_lit (clone_exprs subst a)
  clone_expr subst (tuple_lit a) = tuple_lit (clone_exprs subst a)
  clone_expr subst (unary a b) = unary a (clone_expr subst b)
  clone_expr subst (ref_expr a b) = ref_expr a (clone_expr subst b)
  clone_expr subst (compile_expr a b) = compile_expr a (clone_expr subst b)
  clone_expr subst (quote_expr a b) = quote_expr a (clone_parts subst b)
  clone_expr subst (macro_call a b) = macro_call (clone_expr subst a) (clone_exprs subst b)
  clone_expr subst (deref_expr a) = deref_expr (clone_expr subst a)
  clone_expr subst (binary a b c) = binary a (clone_expr subst b) (clone_expr subst c)
  clone_expr subst (call a b c) = call a (clone_types subst b) (clone_exprs subst c)
  clone_expr subst (method_call a b c d e f) =
      method_call (clone_expr subst a) b (clone_exprs subst c) "" false ""
  clone_expr subst (struct_lit a b c) = struct_lit a (clone_types subst b) (clone_inits subst c)
  clone_expr subst (access a b) = access (clone_expr subst a) b
  clone_expr subst (index_expr a b) = index_expr (clone_expr subst a) (clone_expr subst b)
  clone_expr subst (enum_variant a b c d) =
      enum_variant a (clone_types subst b) c (clone_expr subst d)
  clone_expr subst (block_expr a) = block_expr (clone_block subst a)
  clone_expr subst (loop_expr a) = loop_expr (clone_block subst a)
  clone_expr subst (if_expr a b c) =
      if_expr (clone_expr subst a) (clone_expr subst b) (clone_expr subst c)
  clone_expr subst (match_expr a b) = match_expr (clone_expr subst a) (clone_arms subst b)
  clone_expr subst e = e

  pub clone_exprs : Subst → Exprs → Exprs
  clone_exprs subst no_exprs = no_exprs
  clone_exprs subst (cons_expr a b) = cons_expr (clone_expr subst a) (clone_exprs subst b)

  pub clone_parts : Subst → QuoteParts → QuoteParts
  clone_parts subst no_parts = no_parts
  clone_parts subst (cons_part a b c) = cons_part a (clone_expr subst b) (clone_parts subst c)

  pub clone_inits : Subst → FieldInits → FieldInits
  clone_inits subst no_inits = no_inits
  clone_inits subst (cons_init a b c) = cons_init a (clone_expr subst b) (clone_inits subst c)

  pub clone_block : Subst → Block → Block
  clone_block subst no_block = no_block
  clone_block subst (block a) = block (clone_stmts subst a)

  pub clone_stmt : Subst → Stmt → Stmt
  clone_stmt subst (block_stmt a) = block_stmt (clone_block subst a)
  clone_stmt subst (let_stmt a b c d) = let_stmt a b (clone_elem subst c) (clone_expr subst d)
  clone_stmt subst (let_pattern a b c d) =
      let_pattern (clone_pattern subst a) b (clone_elem subst c) (clone_expr subst d)
  clone_stmt subst (assign a b) = assign (clone_expr subst a) (clone_expr subst b)
  clone_stmt subst (expr_stmt a) = expr_stmt (clone_expr subst a)
  clone_stmt subst (return_stmt a) = return_stmt (clone_expr subst a)
  clone_stmt subst (if_stmt a b c) =
      if_stmt (clone_expr subst a) (clone_block subst b) (clone_block subst c)
  clone_stmt subst (if_let a b c d) =
      if_let (clone_pattern subst a) (clone_expr subst b) (clone_block subst c)
        (clone_block subst d)
  clone_stmt subst (while_stmt a b c) = while_stmt a (clone_expr subst b) (clone_block subst c)
  clone_stmt subst (while_let a b c d) =
      while_let a (clone_pattern subst b) (clone_expr subst c) (clone_block subst d)
  clone_stmt subst (loop_stmt a b) = loop_stmt a (clone_block subst b)
  clone_stmt subst (break_stmt a b) = break_stmt a (clone_expr subst b)
  clone_stmt subst (match_stmt a b) = match_stmt (clone_expr subst a) (clone_arms subst b)
  clone_stmt subst (for_stmt a b c d) =
      for_stmt a (clone_pattern subst b) (clone_expr subst c) (clone_block subst d)
  clone_stmt subst s = s

  pub clone_stmts : Subst → Stmts → Stmts
  clone_stmts subst no_stmts = no_stmts
  clone_stmts subst (cons_stmt a b) = cons_stmt (clone_stmt subst a) (clone_stmts subst b)

  pub clone_arms : Subst → Arms → Arms
  clone_arms subst no_arms = no_arms
  clone_arms subst (cons_arm a b c d) =
      cons_arm (clone_pattern subst a) (clone_expr subst b) (clone_block subst c)
        (clone_arms subst d)

  pub clone_pattern : Subst → Pattern → Pattern
  clone_pattern subst (variant a b c d) = variant a b c (clone_pattern subst d)
  clone_pattern subst (range_pattern a b c) =
      range_pattern (clone_expr subst a) (clone_expr subst b) c
  clone_pattern subst (or_pattern a) = or_pattern (clone_patterns subst a)
  clone_pattern subst (struct_pattern a b) = struct_pattern a (clone_field_patterns subst b)
  clone_pattern subst (tuple_pattern a) = tuple_pattern (clone_patterns subst a)
  clone_pattern subst (array_pattern a) = array_pattern (clone_patterns subst a)
  clone_pattern subst p = p

  pub clone_patterns : Subst → Patterns → Patterns
  clone_patterns subst no_patterns = no_patterns
  clone_patterns subst (cons_pattern a b) =
      cons_pattern (clone_pattern subst a) (clone_patterns subst b)

  pub clone_field_patterns : Subst → FieldPatterns → FieldPatterns
  clone_field_patterns subst no_field_patterns = no_field_patterns
  clone_field_patterns subst (cons_field_pattern a b c d) =
      cons_field_pattern a b (clone_pattern subst c) (clone_field_patterns subst d)

unfoldable pub clone_params : Subst → List Param → List Param
clone_params subst [] = []
clone_params subst (p ∷ ps) = clone_param subst p ∷ clone_params subst ps

unfoldable pub clone_function : Subst → Function → Function
unfolding clone_expr clone_type clone_params
clone_function subst fn = record fn {
  type_params = [];
  params = clone_params subst fn.params;
  return_type = clone_elem subst fn.return_type;
  body = clone_block subst fn.body;
}
