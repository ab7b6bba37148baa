-- ===== src/Typecheck/Clone/Same.antt =====
-- Copying by compiler/stage0/internal/typecheck/clone.go where nothing is to be replaced.
use dast_lang.Base.{
  ap, some, String, Bool, true, false, none, ◌≡◌, ◌∙◌, refl, Bool-cases, inl, inr, arith,
  if◌then◌else◌,
}
use dast_lang.Typecheck.Clone.Unresolved.{
  UnresolvedExpr, UnresolvedExprs, UnresolvedQuoteParts, UnresolvedFieldInits, UnresolvedBlock,
  UnresolvedStmt, UnresolvedStmts, UnresolvedPattern, UnresolvedPatterns, UnresolvedFieldPatterns,
  UnresolvedArms,
}
use dast_lang.Base.{sym}
use text.Mathlib.Text.{◌==◌ as str_eq}
use dast_lang.Ast.Types.{Ty, ty, OptTy, no_type, some_type, Tys, no_types, cons_type}
use dast_lang.Ast.Tree.{
  Expr, Exprs, QuoteParts, FieldInits, Block, Stmt, Stmts, Arms, Pattern, Patterns, FieldPatterns,
  no_expr, ident, int_lit, char_lit, float_lit, bool_lit, string_lit, array_lit, tuple_lit, unary,
  ref_expr, compile_expr, quote_expr, macro_call, deref_expr, binary, call, method_call, closure,
  struct_lit, access, index_expr, enum_variant, block_expr, loop_expr, if_expr, match_expr,
  no_exprs, cons_expr, no_parts, cons_part, no_inits, cons_init, no_block, block, no_stmt,
  block_stmt, let_stmt, let_pattern, assign, expr_stmt, return_stmt, if_stmt, if_let, while_stmt,
  while_let, loop_stmt, break_stmt, continue_stmt, match_stmt, for_stmt, no_stmts, cons_stmt,
  no_arms, cons_arm, no_pattern, wildcard, binding, variant, literal, range_pattern, or_pattern,
  struct_pattern, tuple_pattern, array_pattern, no_patterns, cons_pattern, no_field_patterns,
  cons_field_pattern,
}
use dast_lang.Typecheck.Clone.Types.{
  Subst, replacement, clone_type, clone_elem, clone_types, with_ref, type_to_ast,
}
use dast_lang.Typecheck.Clone.Trees.{
  clone_expr, clone_exprs, clone_parts, clone_inits, clone_block, clone_stmt, clone_stmts,
  clone_pattern, clone_patterns, clone_field_patterns, clone_arms,
}

-- No name stands for a type.
abbrev pub no_subst : Subst
no_subst = record { types = λ n. none; self_type = none }

not_replaced : (n : String) → replacement no_subst n ≡ none
unfolding replacement
not_replaced n = elim (Bool-cases (str_eq n "Self")) [ inl s ↦ ground arith | inr s ↦ ground arith ]

kept_name :
    (n : String) (r m : Bool) (t : Ty)
    → elim (replacement no_subst n) [ some rep ↦ with_ref r m (type_to_ast rep) | none ↦ t ] ≡ t
kept_name n r m t = rw (not_replaced n) refl

kept_tuple :
    (t : Bool) (es : Tys)
    → clone_types no_subst es ≡ es
    → (if t then clone_types no_subst es else es) ≡ es
kept_tuple true es h = h
kept_tuple false es h = refl

mutual
  unfolding clone_type

  pub clone_type-same : (t : Ty) → clone_type no_subst t ≡ t
  clone_type-same (ty n r m true t e es xs) = λ i.
      ty n r m true t (clone_elem-same e i) (kept_tuple t es (clone_types-same es) i)
        (clone_types-same xs i)
  clone_type-same (ty n r m false t e es xs) =
      kept_name n r m _
      ∙ (λ i. ty n r m false t e (kept_tuple t es (clone_types-same es) i) (clone_types-same xs i))

  pub clone_elem-same : (e : OptTy) → clone_elem no_subst e ≡ e
  clone_elem-same no_type = refl
  clone_elem-same (some_type t) = ap some_type (clone_type-same t)

  pub clone_types-same : (ts : Tys) → clone_types no_subst ts ≡ ts
  clone_types-same no_types = refl
  clone_types-same (cons_type t ts) = λ i. cons_type (clone_type-same t i) (clone_types-same ts i)

mutual
  unfolding clone_expr

  pub clone_expr-same : (x : Expr) → UnresolvedExpr x → clone_expr no_subst x ≡ x
  clone_expr-same no_expr h = refl
  clone_expr-same (ident a) h = refl
  clone_expr-same (int_lit a) h = refl
  clone_expr-same (char_lit a) h = refl
  clone_expr-same (float_lit a) h = refl
  clone_expr-same (bool_lit a) h = refl
  clone_expr-same (string_lit a) h = refl
  clone_expr-same (array_lit a) h = λ i. array_lit (clone_exprs-same a h i)
  clone_expr-same (tuple_lit a) h = λ i. tuple_lit (clone_exprs-same a h i)
  clone_expr-same (unary a b) h = λ i. unary a (clone_expr-same b h i)
  clone_expr-same (ref_expr a b) h = λ i. ref_expr a (clone_expr-same b h i)
  clone_expr-same (compile_expr a b) h = λ i. compile_expr a (clone_expr-same b h i)
  clone_expr-same (quote_expr a b) h = λ i. quote_expr a (clone_parts-same b h i)
  clone_expr-same (macro_call a b) h =
      λ i. macro_call (clone_expr-same a h.0 i) (clone_exprs-same b h.1 i)
  clone_expr-same (deref_expr a) h = λ i. deref_expr (clone_expr-same a h i)
  clone_expr-same (binary a b c) h =
      λ i. binary a (clone_expr-same b h.0 i) (clone_expr-same c h.1 i)
  clone_expr-same (call a b c) h = λ i. call a (clone_types-same b i) (clone_exprs-same c h i)
  clone_expr-same (method_call a b c d e f) h = λ i.
      method_call (clone_expr-same a h.0 i) b (clone_exprs-same c h.1 i) (sym h.2 i) (sym h.3 i)
        (sym h.4 i)
  clone_expr-same (closure a b c) h = refl
  clone_expr-same (struct_lit a b c) h =
      λ i. struct_lit a (clone_types-same b i) (clone_inits-same c h i)
  clone_expr-same (access a b) h = λ i. access (clone_expr-same a h i) b
  clone_expr-same (index_expr a b) h =
      λ i. index_expr (clone_expr-same a h.0 i) (clone_expr-same b h.1 i)
  clone_expr-same (enum_variant a b c d) h =
      λ i. enum_variant a (clone_types-same b i) c (clone_expr-same d h i)
  clone_expr-same (block_expr a) h = λ i. block_expr (clone_block-same a h i)
  clone_expr-same (loop_expr a) h = λ i. loop_expr (clone_block-same a h i)
  clone_expr-same (if_expr a b c) h =
      λ i. if_expr (clone_expr-same a h.0 i) (clone_expr-same b h.1 i) (clone_expr-same c h.2 i)
  clone_expr-same (match_expr a b) h =
      λ i. match_expr (clone_expr-same a h.0 i) (clone_arms-same b h.1 i)

  pub clone_exprs-same : (x : Exprs) → UnresolvedExprs x → clone_exprs no_subst x ≡ x
  clone_exprs-same no_exprs h = refl
  clone_exprs-same (cons_expr a b) h =
      λ i. cons_expr (clone_expr-same a h.0 i) (clone_exprs-same b h.1 i)

  pub clone_parts-same : (x : QuoteParts) → UnresolvedQuoteParts x → clone_parts no_subst x ≡ x
  clone_parts-same no_parts h = refl
  clone_parts-same (cons_part a b c) h =
      λ i. cons_part a (clone_expr-same b h.0 i) (clone_parts-same c h.1 i)

  pub clone_inits-same : (x : FieldInits) → UnresolvedFieldInits x → clone_inits no_subst x ≡ x
  clone_inits-same no_inits h = refl
  clone_inits-same (cons_init a b c) h =
      λ i. cons_init a (clone_expr-same b h.0 i) (clone_inits-same c h.1 i)

  pub clone_block-same : (x : Block) → UnresolvedBlock x → clone_block no_subst x ≡ x
  clone_block-same no_block h = refl
  clone_block-same (block a) h = λ i. block (clone_stmts-same a h i)

  pub clone_stmt-same : (x : Stmt) → UnresolvedStmt x → clone_stmt no_subst x ≡ x
  clone_stmt-same no_stmt h = refl
  clone_stmt-same (block_stmt a) h = λ i. block_stmt (clone_block-same a h i)
  clone_stmt-same (let_stmt a b c d) h =
      λ i. let_stmt a b (clone_elem-same c i) (clone_expr-same d h i)
  clone_stmt-same (let_pattern a b c d) h = λ i.
      let_pattern (clone_pattern-same a h.0 i) b (clone_elem-same c i) (clone_expr-same d h.1 i)
  clone_stmt-same (assign a b) h = λ i. assign (clone_expr-same a h.0 i) (clone_expr-same b h.1 i)
  clone_stmt-same (expr_stmt a) h = λ i. expr_stmt (clone_expr-same a h i)
  clone_stmt-same (return_stmt a) h = λ i. return_stmt (clone_expr-same a h i)
  clone_stmt-same (if_stmt a b c) h =
      λ i. if_stmt (clone_expr-same a h.0 i) (clone_block-same b h.1 i) (clone_block-same c h.2 i)
  clone_stmt-same (if_let a b c d) h = λ i.
      if_let (clone_pattern-same a h.0 i) (clone_expr-same b h.1 i) (clone_block-same c h.2 i)
        (clone_block-same d h.3 i)
  clone_stmt-same (while_stmt a b c) h =
      λ i. while_stmt a (clone_expr-same b h.0 i) (clone_block-same c h.1 i)
  clone_stmt-same (while_let a b c d) h = λ i.
      while_let a (clone_pattern-same b h.0 i) (clone_expr-same c h.1 i) (clone_block-same d h.2 i)
  clone_stmt-same (loop_stmt a b) h = λ i. loop_stmt a (clone_block-same b h i)
  clone_stmt-same (break_stmt a b) h = λ i. break_stmt a (clone_expr-same b h i)
  clone_stmt-same (continue_stmt a) h = refl
  clone_stmt-same (match_stmt a b) h =
      λ i. match_stmt (clone_expr-same a h.0 i) (clone_arms-same b h.1 i)
  clone_stmt-same (for_stmt a b c d) h = λ i.
      for_stmt a (clone_pattern-same b h.0 i) (clone_expr-same c h.1 i) (clone_block-same d h.2 i)

  pub clone_stmts-same : (x : Stmts) → UnresolvedStmts x → clone_stmts no_subst x ≡ x
  clone_stmts-same no_stmts h = refl
  clone_stmts-same (cons_stmt a b) h =
      λ i. cons_stmt (clone_stmt-same a h.0 i) (clone_stmts-same b h.1 i)

  pub clone_arms-same : (x : Arms) → UnresolvedArms x → clone_arms no_subst x ≡ x
  clone_arms-same no_arms h = refl
  clone_arms-same (cons_arm a b c d) h = λ i.
      cons_arm (clone_pattern-same a h.0 i) (clone_expr-same b h.1 i) (clone_block-same c h.2 i)
        (clone_arms-same d h.3 i)

  pub clone_pattern-same : (x : Pattern) → UnresolvedPattern x → clone_pattern no_subst x ≡ x
  clone_pattern-same no_pattern h = refl
  clone_pattern-same wildcard h = refl
  clone_pattern-same (binding a) h = refl
  clone_pattern-same (variant a b c d) h = λ i. variant a b c (clone_pattern-same d h i)
  clone_pattern-same (literal a) h = refl
  clone_pattern-same (range_pattern a b c) h =
      λ i. range_pattern (clone_expr-same a h.0 i) (clone_expr-same b h.1 i) c
  clone_pattern-same (or_pattern a) h = λ i. or_pattern (clone_patterns-same a h i)
  clone_pattern-same (struct_pattern a b) h =
      λ i. struct_pattern a (clone_field_patterns-same b h i)
  clone_pattern-same (tuple_pattern a) h = λ i. tuple_pattern (clone_patterns-same a h i)
  clone_pattern-same (array_pattern a) h = λ i. array_pattern (clone_patterns-same a h i)

  pub clone_patterns-same : (x : Patterns) → UnresolvedPatterns x → clone_patterns no_subst x ≡ x
  clone_patterns-same no_patterns h = refl
  clone_patterns-same (cons_pattern a b) h =
      λ i. cons_pattern (clone_pattern-same a h.0 i) (clone_patterns-same b h.1 i)

  pub clone_field_patterns-same :
      (x : FieldPatterns) → UnresolvedFieldPatterns x → clone_field_patterns no_subst x ≡ x
  clone_field_patterns-same no_field_patterns h = refl
  clone_field_patterns-same (cons_field_pattern a b c d) h =
      λ i. cons_field_pattern a b (clone_pattern-same c h.0 i) (clone_field_patterns-same d h.1 i)
