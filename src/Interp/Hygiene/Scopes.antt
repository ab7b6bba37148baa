-- ===== src/Interp/Hygiene/Scopes.antt =====
-- The scopes and the counter of `hygieneRenamer` (compiler/stage0/internal/interp/quote.go).
use dast_lang.Interp.Hygiene.Trees.{
  rename_stmt, rename_arms, rename_stmts, rename_block, rename_inits, rename_exprs, declare_binds,
  open_scope, rename_expr,
}
use dast_lang.Interp.Hygiene.Patterns.{Binds, rename_pattern, rename_pattern_with_map}
use dast_lang.Interp.Hygiene.Counter.{rename_pattern_with_map-Counted}
use dast_lang.Base.{if_holds, String, true, ◌≡◌, ◌∙◌, ◌≤◌, refl, ap, List, [], ◌∷◌, arith}
use dast_lang.Ast.Tree.{
  Expr, Exprs, FieldInits, Block, Stmt, Stmts, Arms, Pattern, access, array_lit, assign, binary,
  block, block_expr, block_stmt, call, compile_expr, cons_arm, cons_expr, cons_init, cons_stmt,
  deref_expr, enum_variant, expr_stmt, ident, if_expr, if_let, if_stmt, index_expr, let_pattern,
  let_stmt, loop_stmt, macro_call, match_expr, match_stmt, method_call, no_arms, no_block, no_exprs,
  no_inits, no_stmts, ref_expr, return_stmt, struct_lit, unary, while_let, while_stmt,
}
use dast_lang.Interp.Hygiene.Renamer.{
  Names, Renamer, push, pop, rest, declare, declare_all, declare_renamed, bind_in, is_fixed, Scope,
}

-- The scopes are as they were, and the counter has not gone back.
pub record Kept (r r' : Renamer) : Type 0 where
  pub scopes : r'.scopes ≡ r.scopes
  pub next_id : r.next_id ≤ r'.next_id

-- So are all scopes but the innermost.
pub record Grown (r r' : Renamer) : Type 0 where
  pub scopes : rest r'.scopes ≡ rest r.scopes
  pub next_id : r.next_id ≤ r'.next_id

-- There is one scope more.
pub record Opened (r r' : Renamer) : Type 0 where
  pub scopes : rest r'.scopes ≡ r.scopes
  pub next_id : r.next_id ≤ r'.next_id

pub Kept-refl : (r : Renamer) → Kept r r
Kept-refl r = record { scopes = refl; next_id = omega arith }

pub Kept-then : {r r' r'' : Renamer} → Kept r r' → Kept r' r'' → Kept r r''
Kept-then k l = record {
  scopes = l.scopes ∙ k.scopes;
  next_id = omega (arith, k.next_id, l.next_id);
}

pub Kept-Grown : {r r' : Renamer} → Kept r r' → Grown r r'
Kept-Grown k = record { scopes = ap rest k.scopes; next_id = k.next_id }

pub Grown-refl : (r : Renamer) → Grown r r
Grown-refl r = record { scopes = refl; next_id = omega arith }

pub Grown-then : {r r' r'' : Renamer} → Grown r r' → Grown r' r'' → Grown r r''
Grown-then k l = record {
  scopes = l.scopes ∙ k.scopes;
  next_id = omega (arith, k.next_id, l.next_id);
}

pub popped : {r r' : Renamer} → Grown (push r) r' → Kept r (pop r')
popped g = record { scopes = g.scopes; next_id = g.next_id }

closed : {r r' r'' : Renamer} → Opened r r' → Kept r' r'' → Kept r (pop r'')
closed o k = record {
  scopes = ap rest k.scopes ∙ o.scopes;
  next_id = omega (arith, o.next_id, k.next_id);
}

opened : (r : Renamer) {r' : Renamer} → Grown (push r) r' → Opened r r'
opened r g = record { scopes = g.scopes; next_id = g.next_id }

rest-bind_in :
    (name renamed : String) (scopes : List Scope) → rest (bind_in name renamed scopes) ≡ rest scopes
rest-bind_in name renamed [] = refl
rest-bind_in name renamed (scope ∷ scopes) = refl

module _ (names : Names) where
  declare-Grown : (name : String) (r : Renamer) → Grown r (declare names name r).0
  unfolding declare
  declare-Grown name r =
      if_holds (λ (z : Renamer × String). Grown r z.0) (is_fixed names name) _ _ (Grown-refl r)
        (record { scopes = rest-bind_in name _ r.scopes; next_id = omega arith })

  pub declare_renamed-Grown :
      (name renamed : String) (r : Renamer) → Grown r (declare_renamed names name renamed r)
  unfolding declare_renamed
  declare_renamed-Grown name renamed r =
      if_holds (λ z. Grown r z) (is_fixed names name) _ _ (Grown-refl r)
        (record { scopes = rest-bind_in name renamed r.scopes; next_id = omega arith })

  declare_all-Grown : (binds : Scope) (r : Renamer) → Grown r (declare_all names binds r)
  unfolding declare_all
  declare_all-Grown [] r = Grown-refl r
  declare_all-Grown ((name, renamed) ∷ binds) r =
      Grown-then (declare_renamed-Grown name renamed r)
        (declare_all-Grown binds (declare_renamed names name renamed r))

  -- The names of a pattern are declared with the counter that the pattern has left.
  bound-Grown :
      (r : Renamer) (b : Binds)
      → r.next_id ≤ b.next_id
      → Grown r (declare_all names b.binds (record r { next_id = b.next_id }))
  bound-Grown r b le =
      Grown-then {r = r} {r' = record r { next_id = b.next_id }}
        (record { scopes = refl; next_id = le }) (declare_all-Grown b.binds _)

  counted : (p : Pattern) (r : Renamer) → r.next_id ≤ (rename_pattern names p r.next_id).0.next_id
  unfolding rename_pattern_with_map
  counted p r =
      (rename_pattern_with_map-Counted names true p
        (record { next_id = r.next_id; binds = [] })).next_id

  declare_binds-Grown : (p : Pattern) (r : Renamer) → Grown r (declare_binds names p r).0
  unfolding declare_binds
  declare_binds-Grown p r = bound-Grown r (rename_pattern names p r.next_id).0 (counted p r)

  open_scope-Opened : (p : Pattern) (r : Renamer) → Opened r (open_scope names p r).0
  unfolding open_scope
  open_scope-Opened p r =
      opened r (bound-Grown (push r) (rename_pattern names p r.next_id).0 (counted p r))

  mutual
    unfolding rename_expr

    pub rename_expr-Kept : (x : Expr) (r : Renamer) → Kept r (rename_expr names x r).0
    rename_expr-Kept (ident name) r = Kept-refl r
    rename_expr-Kept (unary op e) r = rename_expr-Kept e r
    rename_expr-Kept (ref_expr m e) r = rename_expr-Kept e r
    rename_expr-Kept (deref_expr e) r = rename_expr-Kept e r
    rename_expr-Kept (binary op e f) r = Kept-then (rename_expr-Kept e r) (rename_expr-Kept f _)
    rename_expr-Kept (call callee ts es) r = rename_exprs-Kept es r
    rename_expr-Kept (method_call e method es a b c) r =
        Kept-then (rename_expr-Kept e r) (rename_exprs-Kept es _)
    rename_expr-Kept (struct_lit name ts fs) r = rename_inits-Kept fs r
    rename_expr-Kept (access e field) r = rename_expr-Kept e r
    rename_expr-Kept (index_expr e f) r = Kept-then (rename_expr-Kept e r) (rename_expr-Kept f _)
    rename_expr-Kept (enum_variant name ts v e) r = rename_expr-Kept e r
    rename_expr-Kept (block_expr b) r = rename_block-Kept b r
    rename_expr-Kept (if_expr e f g) r =
        Kept-then (Kept-then (rename_expr-Kept e r) (rename_expr-Kept f _)) (rename_expr-Kept g _)
    rename_expr-Kept (match_expr e arms) r =
        Kept-then (rename_expr-Kept e r) (rename_arms-Kept arms _)
    rename_expr-Kept (array_lit es) r = rename_exprs-Kept es r
    rename_expr-Kept (compile_expr id e) r = rename_expr-Kept e r
    rename_expr-Kept (macro_call e es) r = Kept-then (rename_expr-Kept e r) (rename_exprs-Kept es _)
    rename_expr-Kept _ r = Kept-refl r

    pub rename_exprs-Kept : (x : Exprs) (r : Renamer) → Kept r (rename_exprs names x r).0
    rename_exprs-Kept no_exprs r = Kept-refl r
    rename_exprs-Kept (cons_expr e es) r = Kept-then (rename_expr-Kept e r) (rename_exprs-Kept es _)

    pub rename_inits-Kept : (x : FieldInits) (r : Renamer) → Kept r (rename_inits names x r).0
    rename_inits-Kept no_inits r = Kept-refl r
    rename_inits-Kept (cons_init name e fs) r =
        Kept-then (rename_expr-Kept e r) (rename_inits-Kept fs _)

    pub rename_block-Kept : (x : Block) (r : Renamer) → Kept r (rename_block names x r).0
    rename_block-Kept no_block r = Kept-refl r
    rename_block-Kept (block ss) r = popped (rename_stmts-Grown ss (push r))

    pub rename_stmts-Grown : (x : Stmts) (r : Renamer) → Grown r (rename_stmts names x r).0
    rename_stmts-Grown no_stmts r = Grown-refl r
    rename_stmts-Grown (cons_stmt s ss) r =
        Grown-then (rename_stmt-Grown s r) (rename_stmts-Grown ss _)

    pub rename_arms-Kept : (x : Arms) (r : Renamer) → Kept r (rename_arms names x r).0
    rename_arms-Kept no_arms r = Kept-refl r
    rename_arms-Kept (cons_arm p e b arms) r =
        Kept-then
          (closed (open_scope-Opened p r)
            (Kept-then (rename_expr-Kept e _) (rename_block-Kept b _)))
          (rename_arms-Kept arms _)

    pub rename_stmt-Grown : (x : Stmt) (r : Renamer) → Grown r (rename_stmt names x r).0
    rename_stmt-Grown (block_stmt b) r = Kept-Grown (rename_block-Kept b r)
    rename_stmt-Grown (let_stmt name m t e) r =
        Grown-then (Kept-Grown (rename_expr-Kept e r)) (declare-Grown name _)
    rename_stmt-Grown (let_pattern p m t e) r =
        Grown-then (Kept-Grown (rename_expr-Kept e r)) (declare_binds-Grown p _)
    rename_stmt-Grown (assign e f) r =
        Kept-Grown (Kept-then (rename_expr-Kept e r) (rename_expr-Kept f _))
    rename_stmt-Grown (expr_stmt e) r = Kept-Grown (rename_expr-Kept e r)
    rename_stmt-Grown (return_stmt e) r = Kept-Grown (rename_expr-Kept e r)
    rename_stmt-Grown (if_stmt e b c) r = Kept-Grown (
        Kept-then (Kept-then (rename_expr-Kept e r) (rename_block-Kept b _))
          (rename_block-Kept c _))
    rename_stmt-Grown (if_let p e b c) r = Kept-Grown (
        Kept-then
          (Kept-then (rename_expr-Kept e r)
            (closed (open_scope-Opened p _) (rename_block-Kept b _)))
          (rename_block-Kept c _))
    rename_stmt-Grown (while_stmt l e b) r =
        Kept-Grown (Kept-then (rename_expr-Kept e r) (rename_block-Kept b _))
    rename_stmt-Grown (while_let l p e b) r =
        Kept-Grown (
          Kept-then (rename_expr-Kept e r) (closed (open_scope-Opened p _) (rename_block-Kept b _)))
    rename_stmt-Grown (loop_stmt l b) r = Kept-Grown (rename_block-Kept b r)
    rename_stmt-Grown (match_stmt e arms) r =
        Kept-Grown (Kept-then (rename_expr-Kept e r) (rename_arms-Kept arms _))
    rename_stmt-Grown _ r = Grown-refl r
