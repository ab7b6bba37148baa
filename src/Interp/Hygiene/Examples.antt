-- ===== src/Interp/Hygiene/Examples.antt =====
-- A block whose variable is renamed, and one with a `for` that is not.
use dast_lang.Interp.Hygiene.Renamer.{lookup, declare, unique, Names, Renamer}
use dast_lang.Ast.Types.{no_types, ty, no_type}
use dast_lang.Interp.Hygiene.Laws.{rename_block-scopes, rename_item-scopes}
use dast_lang.Interp.Hygiene.Trees.{rename_block, rename_item}
use dast_lang.Base.{String, ◌≡◌, ◌≤◌, refl, false, [], ◌∷◌}
use dast_lang.Ast.Tree.{
  Block, Stmts, block, cons_stmt, no_stmts, let_stmt, expr_stmt, for_stmt, binding, ident, int_lit,
}
use dast_lang.Ast.Items.{Item, function_item, vis_private}

abbrev plain_names : Names
plain_names = record { decimal = λ n. "0"; is_placeholder = λ name. false }

abbrev start : Renamer
start = record { next_id = 0; scopes = [] ∷ [] }

abbrev with_let : String → Stmts → Block
with_let name stmts = block (cons_stmt (let_stmt name false no_type (int_lit 1)) stmts)

-- { let x = 1; x }
abbrev used : Block
used = with_let "x" (cons_stmt (expr_stmt (ident "x")) no_stmts)

-- { let x = 1; for i in xs { x } }
abbrev looped : Block
looped = with_let "x" (
    cons_stmt
      (for_stmt "" (binding "i") (ident "xs") (block (cons_stmt (expr_stmt (ident "x")) no_stmts)))
      no_stmts)

used_result : rename_block plain_names used start ≡ (
  record start { next_id = 1 },
  with_let "__dast_hyg_x_0" (cons_stmt (expr_stmt (ident "__dast_hyg_x_0")) no_stmts),
)
unfolding rename_block unique declare lookup
used_result = refl

-- The `x` in the loop keeps its name, although the variable has another.
looped_result : rename_block plain_names looped start ≡ (
  record start { next_id = 1 },
  with_let "__dast_hyg_x_0" (
      cons_stmt
        (for_stmt ""
          (binding "i")
          (ident "xs")
          (block (cons_stmt (expr_stmt (ident "x")) no_stmts)))
        no_stmts),
)
unfolding rename_block unique declare lookup
looped_result = refl

abbrev item : Item
item = function_item (record {
  name = "f";
  type_params = [];
  params =
      record { name = "a"; type = ty "i64" false false false false no_type no_types no_types } ∷ [];
  return_type = no_type;
  body = used;
  vis = vis_private;
  is_macro = false;
})

rename_block-scopes_example :
    ((rename_block plain_names used start).0.scopes ≡ [] ∷ [])
    × (0 ≤ (rename_block plain_names used start).0.next_id)
rename_block-scopes_example = rename_block-scopes plain_names used start

rename_item-scopes_example :
    ((rename_item plain_names item start).0.scopes ≡ [] ∷ [])
    × (0 ≤ (rename_item plain_names item start).0.next_id)
rename_item-scopes_example = rename_item-scopes plain_names item start
