-- ===== src/Interp/AstEq/Items.antt =====
-- `astItemEq` of compiler/stage0/internal/interp/ast_eq.go, with the loops over its lists.
use text.Mathlib.Text.{◌==◌ as str_eq}
use dast_lang.Ast.Items.{
  Visibility, vis_private, vis_public, TypeParam, Param, FieldDef, VariantDef, Function,
  TraitMethod, Item, no_item, function_item, import_decl, struct_decl, const_decl, enum_decl,
  impl_decl, trait_decl, impl_trait, type_alias, compile_item,
}
use dast_lang.Ast.Tree.{Expr, no_expr}
use dast_lang.Ast.Values.{ConstValue}
use dast_lang.Base.{Bool, true, false, ◌&&◌, ◌==◌, List, [], ◌∷◌}
use dast_lang.Interp.AstEq.Trees.{ast_expr_eq, ast_block_eq}
use dast_lang.Interp.AstEq.Types.{type_eq, type_ptr_eq, type_list_eq, const_value_eq}
use dast_lang.Ir.Fold.{bool_eq}

-- The loops over two lists: the lengths are equal and so are the elements in order.
unfoldable pub list_eq {ℓ} : {A : Type ℓ} → (A → A → Bool) → List A → List A → Bool
list_eq eq [] [] = true
list_eq eq (a ∷ xs) (b ∷ ys) = eq a b && list_eq eq xs ys
list_eq eq _ _ = false

unfoldable pub visibility_eq : Visibility → Visibility → Bool
visibility_eq vis_private vis_private = true
visibility_eq vis_public vis_public = true
visibility_eq _ _ = false

unfoldable pub type_param_eq : TypeParam → TypeParam → Bool
type_param_eq a b = str_eq a.name b.name && type_list_eq a.bounds b.bounds

unfoldable pub param_eq : Param → Param → Bool
param_eq a b = str_eq a.name b.name && type_eq a.type b.type

unfoldable pub field_def_eq : FieldDef → FieldDef → Bool
field_def_eq a b = str_eq a.name b.name && type_eq a.type b.type

unfoldable pub variant_def_eq : VariantDef → VariantDef → Bool
variant_def_eq a b =
    str_eq a.name b.name
    && bool_eq a.has_value b.has_value
    && a.value == b.value
    && type_ptr_eq a.payload b.payload

-- The case of a function.
unfoldable pub function_eq : Function → Function → Bool
unfolding list_eq visibility_eq type_param_eq param_eq
function_eq a b =
    str_eq a.name b.name
    && list_eq type_param_eq a.type_params b.type_params
    && list_eq param_eq a.params b.params
    && type_ptr_eq a.return_type b.return_type
    && ast_block_eq a.body b.body
    && visibility_eq a.vis b.vis
    && bool_eq a.is_macro b.is_macro

unfoldable pub trait_method_eq : TraitMethod → TraitMethod → Bool
trait_method_eq a b =
    str_eq a.name b.name
    && list_eq param_eq a.params b.params
    && type_ptr_eq a.return_type b.return_type

-- The expressions of two constants where one of them has an expression, and else the values.
abbrev pub const_body_eq : Expr → ConstValue → Expr → ConstValue → Bool
const_body_eq no_expr v no_expr w = const_value_eq v w
const_body_eq e v f w = ast_expr_eq e f

unfoldable pub ast_item_eq : Item → Item → Bool
unfolding function_eq
ast_item_eq no_item no_item = true
ast_item_eq (function_item f) (function_item g) = function_eq f g
ast_item_eq (import_decl p a) (import_decl q b) = str_eq p q && str_eq a b
ast_item_eq (struct_decl n ps r fs v) (struct_decl n' ps' r' fs' v') =
    str_eq n n'
    && str_eq r r'
    && list_eq type_param_eq ps ps'
    && list_eq field_def_eq fs fs'
    && visibility_eq v v'
ast_item_eq (const_decl n t e c v) (const_decl n' t' e' c' v') =
    str_eq n n' && type_ptr_eq t t' && visibility_eq v v' && const_body_eq e c e' c'
ast_item_eq (enum_decl n ps r vs v) (enum_decl n' ps' r' vs' v') =
    str_eq n n'
    && list_eq type_param_eq ps ps'
    && str_eq r r'
    && list_eq variant_def_eq vs vs'
    && visibility_eq v v'
ast_item_eq (impl_decl n xs ps ms v) (impl_decl n' xs' ps' ms' v') =
    str_eq n n'
    && type_list_eq xs xs'
    && list_eq type_param_eq ps ps'
    && list_eq function_eq ms ms'
    && visibility_eq v v'
ast_item_eq (trait_decl n ps ms v) (trait_decl n' ps' ms' v') =
    str_eq n n'
    && list_eq type_param_eq ps ps'
    && list_eq trait_method_eq ms ms'
    && visibility_eq v v'
ast_item_eq (impl_trait n xs t ts ps ms v) (impl_trait n' xs' t' ts' ps' ms' v') =
    str_eq n n'
    && type_list_eq xs xs'
    && str_eq t t'
    && type_list_eq ts ts'
    && list_eq type_param_eq ps ps'
    && list_eq function_eq ms ms'
    && visibility_eq v v'
ast_item_eq (type_alias n ps t v) (type_alias n' ps' t' v') =
    str_eq n n' && list_eq type_param_eq ps ps' && type_eq t t' && visibility_eq v v'
ast_item_eq (compile_item e) (compile_item f) = ast_expr_eq e f
ast_item_eq _ _ = false
