-- ===== src/Interp/AstEq/ItemLaws.antt =====
-- `astItemEq` of compiler/stage0/internal/interp/ast_eq.go against the equality of items.
use text.Mathlib.TextEquality.{eq_iff}
use text.Mathlib.TextPositions.{eq_refl}
use dast_lang.Ast.Items.{
  Item, no_item, function_item, import_decl, struct_decl, const_decl, enum_decl, impl_decl,
  trait_decl, impl_trait, type_alias, compile_item,
}
use dast_lang.Ast.Tree.{Expr, no_expr}
use dast_lang.Ast.Values.{ConstValue, const_int}
use dast_lang.Base.{◌≡◌, refl, ap, Bool, true, both, all_four, all_five, all_seven, arith}
use dast_lang.Interp.AstEq.Items.{
  type_param_eq, field_def_eq, variant_def_eq, function_eq, trait_method_eq, const_body_eq,
  ast_item_eq,
}
use dast_lang.Interp.AstEq.Laws.{
  list_eq_sound, list_eq_self, list_eq-true, all_self, visibility_eq_sound, visibility_eq_self,
  type_param_eq_sound, type_param_eq_self, field_def_eq_sound, field_def_eq_self,
  variant_def_eq_sound, variant_def_eq_self, function_eq_sound, function_eq_self,
  function_has_no_char, trait_method_eq_sound, trait_method_eq_self,
}
use dast_lang.Interp.AstEq.Self.{ast_expr_eq_self, expr_has_no_char}
use dast_lang.Interp.AstEq.Sound.{ast_expr_eq_sound}
use dast_lang.Interp.AstEq.Trees.{ast_expr_eq}
use dast_lang.Interp.AstEq.Types.{
  type_eq_sound, type_ptr_eq_sound, type_list_eq_sound, const_value_eq_sound, type_eq_self,
  type_ptr_eq_self, type_list_eq_self, const_value_eq_self, is_not_char,
}

-- The value of a constant counts where it has no expression.
abbrev pub value_of : Expr → ConstValue → ConstValue
value_of no_expr c = c
value_of _ c = const_int 0

-- The item without the values that do not count.
abbrev pub without_value : Item → Item
without_value (const_decl n t e c v) = const_decl n t e (value_of e c) v
without_value item = item

const_body_eq_sound :
    (e : Expr) (c : ConstValue) (f : Expr) (d : ConstValue)
    → const_body_eq e c f d ≡ true
    → (e ≡ f) × (value_of e c ≡ value_of f d)
unfolding ast_expr_eq
const_body_eq_sound no_expr c no_expr d h = (refl, const_value_eq_sound c d h)
const_body_eq_sound no_expr c f d h = cc
const_body_eq_sound e c no_expr d h = cc
const_body_eq_sound e c f d h = (ast_expr_eq_sound e f h, refl)

-- Items that are held for equal are equal but for values of constants that do not count.
pub ast_item_eq_sound : (x y : Item) → ast_item_eq x y ≡ true → without_value x ≡ without_value y
unfolding ast_item_eq
ast_item_eq_sound no_item no_item h = refl
ast_item_eq_sound (function_item f) (function_item g) h = ap function_item (function_eq_sound f g h)
ast_item_eq_sound (const_decl n t e c v) (const_decl n' t' e' c' v') h =
    let (p, q, r, s) = all_four h in
    let (u, w) = const_body_eq_sound e c e' c' s in
    cc ((eq_iff n n').0 p, type_ptr_eq_sound t t' q, visibility_eq_sound v v' r, u, w)
ast_item_eq_sound (import_decl path alias) (import_decl path' alias') h =
    let (p, q) = both h in cc ((eq_iff path path').0 p, (eq_iff alias alias').0 q)
ast_item_eq_sound (struct_decl n ps r fs v) (struct_decl n' ps' r' fs' v') h =
    let (p, q, u, w, x) = all_five h in
    cc (
      (eq_iff n n').0 p,
      list_eq_sound type_param_eq type_param_eq_sound ps ps' u,
      (eq_iff r r').0 q,
      list_eq_sound field_def_eq field_def_eq_sound fs fs' w,
      visibility_eq_sound v v' x,
    )
ast_item_eq_sound (enum_decl n ps r vs v) (enum_decl n' ps' r' vs' v') h =
    let (p, q, u, w, x) = all_five h in
    cc (
      (eq_iff n n').0 p,
      list_eq_sound type_param_eq type_param_eq_sound ps ps' q,
      (eq_iff r r').0 u,
      list_eq_sound variant_def_eq variant_def_eq_sound vs vs' w,
      visibility_eq_sound v v' x,
    )
ast_item_eq_sound (impl_decl n xs ps ms v) (impl_decl n' xs' ps' ms' v') h =
    let (p, q, u, w, x) = all_five h in
    cc (
      (eq_iff n n').0 p,
      type_list_eq_sound xs xs' q,
      list_eq_sound type_param_eq type_param_eq_sound ps ps' u,
      list_eq_sound function_eq function_eq_sound ms ms' w,
      visibility_eq_sound v v' x,
    )
ast_item_eq_sound (trait_decl n ps ms v) (trait_decl n' ps' ms' v') h =
    let (p, q, u, w) = all_four h in
    cc (
      (eq_iff n n').0 p,
      list_eq_sound type_param_eq type_param_eq_sound ps ps' q,
      list_eq_sound trait_method_eq trait_method_eq_sound ms ms' u,
      visibility_eq_sound v v' w,
    )
ast_item_eq_sound (impl_trait n xs t ts ps ms v) (impl_trait n' xs' t' ts' ps' ms' v') h =
    let (p, q, u, w, x, y, z) = all_seven h in
    cc (
      (eq_iff n n').0 p,
      type_list_eq_sound xs xs' q,
      (eq_iff t t').0 u,
      type_list_eq_sound ts ts' w,
      list_eq_sound type_param_eq type_param_eq_sound ps ps' x,
      list_eq_sound function_eq function_eq_sound ms ms' y,
      visibility_eq_sound v v' z,
    )
ast_item_eq_sound (type_alias n ps t v) (type_alias n' ps' t' v') h =
    let (p, q, u, w) = all_four h in
    cc (
      (eq_iff n n').0 p,
      list_eq_sound type_param_eq type_param_eq_sound ps ps' q,
      type_eq_sound t t' u,
      visibility_eq_sound v v' w,
    )
ast_item_eq_sound (compile_item e) (compile_item f) h = ap compile_item (ast_expr_eq_sound e f h)
ast_item_eq_sound _ _ h = cc

abbrev pub body_has_no_char : Expr → ConstValue → Bool
body_has_no_char no_expr c = is_not_char c
body_has_no_char e c = expr_has_no_char e

const_body_eq_self : (e : Expr) (c : ConstValue) → const_body_eq e c e c ≡ body_has_no_char e c
const_body_eq_self no_expr c = const_value_eq_self c
const_body_eq_self e c = ast_expr_eq_self e

-- No literal pattern, and no constant without an expression, is a character.
abbrev pub item_has_no_char : Item → Bool
item_has_no_char (function_item f) = function_has_no_char f
item_has_no_char (const_decl n t e c v) = body_has_no_char e c
item_has_no_char (impl_decl n xs ps ms v) = all_self function_eq function_has_no_char ms
item_has_no_char (impl_trait n xs t ts ps ms v) = all_self function_eq function_has_no_char ms
item_has_no_char (compile_item e) = expr_has_no_char e
item_has_no_char _ = true

-- An item is held for equal to itself exactly if it has no character in a literal pattern and none as
-- the value of a constant without an expression.
pub ast_item_eq_self : (x : Item) → ast_item_eq x x ≡ item_has_no_char x
unfolding ast_item_eq
ast_item_eq_self no_item = refl
ast_item_eq_self (function_item f) = function_eq_self f
ast_item_eq_self (const_decl n t e c v) =
    rw (eq_refl n, type_ptr_eq_self t, visibility_eq_self v) (const_body_eq_self e c)
ast_item_eq_self (import_decl path alias) = rw (eq_refl path, eq_refl alias) refl
ast_item_eq_self (struct_decl n ps r fs v) =
    rw
      (
        eq_refl n,
        eq_refl r,
        list_eq-true type_param_eq type_param_eq_self ps,
        list_eq-true field_def_eq field_def_eq_self fs,
        visibility_eq_self v,
      )
      refl
ast_item_eq_self (enum_decl n ps r vs v) =
    rw
      (
        eq_refl n,
        list_eq-true type_param_eq type_param_eq_self ps,
        eq_refl r,
        list_eq-true variant_def_eq variant_def_eq_self vs,
        visibility_eq_self v,
      )
      refl
ast_item_eq_self (impl_decl n xs ps ms v) =
    rw
      (
        eq_refl n,
        type_list_eq_self xs,
        list_eq-true type_param_eq type_param_eq_self ps,
        list_eq_self function_eq function_has_no_char function_eq_self ms,
        visibility_eq_self v,
      )
      (ground arith)
ast_item_eq_self (trait_decl n ps ms v) =
    rw
      (
        eq_refl n,
        list_eq-true type_param_eq type_param_eq_self ps,
        list_eq-true trait_method_eq trait_method_eq_self ms,
        visibility_eq_self v,
      )
      refl
ast_item_eq_self (impl_trait n xs t ts ps ms v) =
    rw
      (
        eq_refl n,
        type_list_eq_self xs,
        eq_refl t,
        type_list_eq_self ts,
        list_eq-true type_param_eq type_param_eq_self ps,
        list_eq_self function_eq function_has_no_char function_eq_self ms,
        visibility_eq_self v,
      )
      (ground arith)
ast_item_eq_self (type_alias n ps t v) =
    rw
      (
        eq_refl n,
        list_eq-true type_param_eq type_param_eq_self ps,
        type_eq_self t,
        visibility_eq_self v,
      )
      refl
ast_item_eq_self (compile_item e) = ast_expr_eq_self e
