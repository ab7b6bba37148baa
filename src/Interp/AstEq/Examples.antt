-- ===== src/Interp/AstEq/Examples.antt =====
-- Equality of small items.
use dast_lang.Interp.AstEq.Types.{type_ptr_eq}
use dast_lang.Interp.AstEq.Trees.{ast_expr_eq}
use dast_lang.Interp.AstEq.Self.{block_has_no_char}
use dast_lang.Base.{refl, ◌≡◌, [], false}
use dast_lang.Ast.Items.{Item, function_item, const_decl, Visibility}
use dast_lang.Ast.Tree.{
  Expr, ident, int_lit, binary, match_expr, cons_arm, no_arms, literal, no_expr, block, cons_stmt,
  no_stmts, expr_stmt,
}
use dast_lang.Ast.Types.{no_type}
use dast_lang.Ast.Values.{const_int, const_char}
use dast_lang.Interp.AstEq.ItemLaws.{ast_item_eq_sound, ast_item_eq_self, without_value}
use dast_lang.Interp.AstEq.Items.{ast_item_eq}

abbrev doubled : Expr
doubled = binary "+" (ident "x") (int_lit 2)

-- `const n = x + 2`, with its value and without.
abbrev evaluated : Item
evaluated = const_decl "n" no_type doubled (const_int 7) Visibility.vis_public

abbrev unevaluated : Item
unevaluated = const_decl "n" no_type doubled (const_int 0) Visibility.vis_public

ast_item_eq_sound_example : without_value evaluated ≡ without_value unevaluated
unfolding ast_item_eq type_ptr_eq ast_expr_eq
ast_item_eq_sound_example = ast_item_eq_sound evaluated unevaluated refl

-- `fn f() { match c { 'a' => { } } }`.
abbrev matches_char : Item
matches_char = function_item (record {
  name = "f";
  type_params = [];
  params = [];
  return_type = no_type;
  body = block (
      cons_stmt
        (expr_stmt (
          match_expr (ident "c")
            (cons_arm (literal (const_char b'a')) no_expr (block no_stmts) no_arms)))
        no_stmts);
  vis = Visibility.vis_private;
  is_macro = false;
})

-- It is not held for equal to itself.
ast_item_eq_self_example : ast_item_eq matches_char matches_char ≡ false
unfolding ast_item_eq block_has_no_char
ast_item_eq_self_example = ast_item_eq_self matches_char
