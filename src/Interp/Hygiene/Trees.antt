-- ===== src/Interp/Hygiene/Trees.antt =====
-- `renameExpr`, `renameStmt`, `renameBlock` and `renameItem` of
-- compiler/stage0/internal/interp/quote.go. The switches have no case for `for`, `break` with a value,
-- tuples, closures and `loop` as an expression, which stay as they are.
use dast_lang.Base.{List, [], ◌∷◌}
use dast_lang.Ast.Tree.{
  Expr, Exprs, FieldInits, Block, Stmt, Stmts, Arms, Pattern, access, array_lit, assign, binary,
  block, block_expr, block_stmt, call, compile_expr, cons_arm, cons_expr, cons_init, cons_stmt,
  deref_expr, enum_variant, expr_stmt, ident, if_expr, if_let, if_stmt, index_expr, let_pattern,
  let_stmt, loop_stmt, macro_call, match_expr, match_stmt, method_call, no_arms, no_block, no_exprs,
  no_inits, no_stmts, ref_expr, return_stmt, struct_lit, unary, while_let, while_stmt,
}
use dast_lang.Ast.Items.{Item, function_item, impl_decl, Function, Param}
use dast_lang.Interp.Hygiene.Patterns.{rename_pattern, rename_pattern_with_map}
use dast_lang.Interp.Hygiene.Renamer.{
  Names, Renamer, push, pop, declare, declare_all, declare_renamed, lookup, renamed_ident,
}

module _ (names : Names) where
  -- `renamePattern`, and its names in a new scope.
  unfoldable pub open_scope : Pattern → Renamer → Renamer × Pattern
  unfolding rename_pattern_with_map declare_all
  open_scope p r =
      let (b, p') = rename_pattern names p r.next_id in
      (declare_all names b.binds (push (record r { next_id = b.next_id })), p')

  -- `renamePattern`, and its names in the scope that there is.
  unfoldable pub declare_binds : Pattern → Renamer → Renamer × Pattern
  unfolding rename_pattern_with_map declare_all
  declare_binds p r =
      let (b, p') = rename_pattern names p r.next_id in
      (declare_all names b.binds (record r { next_id = b.next_id }), p')

  unfoldable mutual
    unfolding open_scope declare_binds declare lookup

    pub rename_expr : Expr → Renamer → Renamer × Expr
    rename_expr (ident name) r = (r, ident (renamed_ident names name (lookup name r.scopes)))
    rename_expr (unary op e) r = let (r1, e') = rename_expr e r in (r1, unary op e')
    rename_expr (ref_expr m e) r = let (r1, e') = rename_expr e r in (r1, ref_expr m e')
    rename_expr (deref_expr e) r = let (r1, e') = rename_expr e r in (r1, deref_expr e')
    rename_expr (binary op e f) r =
        let (r1, e') = rename_expr e r in let (r2, f') = rename_expr f r1 in (r2, binary op e' f')
    rename_expr (call callee ts es) r =
        let (r1, es') = rename_exprs es r in (r1, call callee ts es')
    rename_expr (method_call e method es a b c) r =
        let (r1, e') = rename_expr e r in
        let (r2, es') = rename_exprs es r1 in (r2, method_call e' method es' a b c)
    rename_expr (struct_lit name ts fs) r =
        let (r1, fs') = rename_inits fs r in (r1, struct_lit name ts fs')
    rename_expr (access e field) r = let (r1, e') = rename_expr e r in (r1, access e' field)
    rename_expr (index_expr e f) r =
        let (r1, e') = rename_expr e r in let (r2, f') = rename_expr f r1 in (r2, index_expr e' f')
    rename_expr (enum_variant name ts v e) r =
        let (r1, e') = rename_expr e r in (r1, enum_variant name ts v e')
    rename_expr (block_expr b) r = let (r1, b') = rename_block b r in (r1, block_expr b')
    rename_expr (if_expr e f g) r =
        let (r1, e') = rename_expr e r in
        let (r2, f') = rename_expr f r1 in let (r3, g') = rename_expr g r2 in (r3, if_expr e' f' g')
    rename_expr (match_expr e arms) r =
        let (r1, e') = rename_expr e r in
        let (r2, arms') = rename_arms arms r1 in (r2, match_expr e' arms')
    rename_expr (array_lit es) r = let (r1, es') = rename_exprs es r in (r1, array_lit es')
    rename_expr (compile_expr id e) r = let (r1, e') = rename_expr e r in (r1, compile_expr id e')
    rename_expr (macro_call e es) r =
        let (r1, e') = rename_expr e r in
        let (r2, es') = rename_exprs es r1 in (r2, macro_call e' es')
    rename_expr e r = (r, e)

    pub rename_exprs : Exprs → Renamer → Renamer × Exprs
    rename_exprs no_exprs r = (r, no_exprs)
    rename_exprs (cons_expr e es) r =
        let (r1, e') = rename_expr e r in
        let (r2, es') = rename_exprs es r1 in (r2, cons_expr e' es')

    pub rename_inits : FieldInits → Renamer → Renamer × FieldInits
    rename_inits no_inits r = (r, no_inits)
    rename_inits (cons_init name e fs) r =
        let (r1, e') = rename_expr e r in
        let (r2, fs') = rename_inits fs r1 in (r2, cons_init name e' fs')

    pub rename_block : Block → Renamer → Renamer × Block
    rename_block no_block r = (r, no_block)
    rename_block (block ss) r = let (r1, ss') = rename_stmts ss (push r) in (pop r1, block ss')

    pub rename_stmts : Stmts → Renamer → Renamer × Stmts
    rename_stmts no_stmts r = (r, no_stmts)
    rename_stmts (cons_stmt s ss) r =
        let (r1, s') = rename_stmt s r in
        let (r2, ss') = rename_stmts ss r1 in (r2, cons_stmt s' ss')

    pub rename_arms : Arms → Renamer → Renamer × Arms
    rename_arms no_arms r = (r, no_arms)
    rename_arms (cons_arm p e b arms) r =
        let (r1, p') = open_scope p r in
        let (r2, e') = rename_expr e r1 in
        let (r3, b') = rename_block b r2 in
        let (r4, arms') = rename_arms arms (pop r3) in (r4, cons_arm p' e' b' arms')

    pub rename_stmt : Stmt → Renamer → Renamer × Stmt
    rename_stmt (block_stmt b) r = let (r1, b') = rename_block b r in (r1, block_stmt b')
    rename_stmt (let_stmt name m t e) r =
        let (r1, e') = rename_expr e r in
        let (r2, name') = declare names name r1 in (r2, let_stmt name' m t e')
    rename_stmt (let_pattern p m t e) r =
        let (r1, e') = rename_expr e r in
        let (r2, p') = declare_binds p r1 in (r2, let_pattern p' m t e')
    rename_stmt (assign e f) r =
        let (r1, e') = rename_expr e r in let (r2, f') = rename_expr f r1 in (r2, assign e' f')
    rename_stmt (expr_stmt e) r = let (r1, e') = rename_expr e r in (r1, expr_stmt e')
    rename_stmt (return_stmt e) r = let (r1, e') = rename_expr e r in (r1, return_stmt e')
    rename_stmt (if_stmt e b c) r =
        let (r1, e') = rename_expr e r in
        let (r2, b') = rename_block b r1 in
        let (r3, c') = rename_block c r2 in (r3, if_stmt e' b' c')
    rename_stmt (if_let p e b c) r =
        let (r1, e') = rename_expr e r in
        let (r2, p') = open_scope p r1 in
        let (r3, b') = rename_block b r2 in
        let (r4, c') = rename_block c (pop r3) in (r4, if_let p' e' b' c')
    rename_stmt (while_stmt l e b) r =
        let (r1, e') = rename_expr e r in
        let (r2, b') = rename_block b r1 in (r2, while_stmt l e' b')
    rename_stmt (while_let l p e b) r =
        let (r1, e') = rename_expr e r in
        let (r2, p') = open_scope p r1 in
        let (r3, b') = rename_block b r2 in (pop r3, while_let l p' e' b')
    rename_stmt (loop_stmt l b) r = let (r1, b') = rename_block b r in (r1, loop_stmt l b')
    rename_stmt (match_stmt e arms) r =
        let (r1, e') = rename_expr e r in
        let (r2, arms') = rename_arms arms r1 in (r2, match_stmt e' arms')
    rename_stmt s r = (r, s)

  unfoldable pub declare_params : List Param → Renamer → Renamer
  unfolding declare_renamed
  declare_params [] r = r
  declare_params (p ∷ ps) r = declare_params ps (declare_renamed names p.name p.name r)

  unfoldable pub rename_function : Function → Renamer → Renamer × Function
  unfolding rename_expr declare_params
  rename_function fn r =
      let (r', body') = rename_block fn.body (declare_params fn.params (push r)) in
      (pop r', record fn { body = body' })

  unfoldable pub rename_functions : List Function → Renamer → Renamer × List Function
  unfolding rename_function
  rename_functions [] r = (r, [])
  rename_functions (fn ∷ fns) r =
      let (r', fn') = rename_function fn r in
      let (r'', fns') = rename_functions fns r' in (r'', fn' ∷ fns')

  unfoldable pub rename_item : Item → Renamer → Renamer × Item
  unfolding rename_function rename_functions
  rename_item (function_item fn) r = let (r', fn') = rename_function fn r in (r', function_item fn')
  rename_item (impl_decl name type_args type_params methods vis) r =
      let (r', methods') = rename_functions methods r in
      (r', impl_decl name type_args type_params methods' vis)
  rename_item item r = (r, item)
