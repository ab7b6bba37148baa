-- ===== src/Typecheck/Clone/Types.antt =====
-- `typeToAst`, `cloneType` and `cloneParam` of compiler/stage0/internal/typecheck/clone.go.
use text.Mathlib.Text.{◌==◌ as str_eq}
use dast_lang.Base.{String, Bool, true, false, Option, none, some, if◌then◌else◌}
use dast_lang.Ast.Types.{Ty, ty, OptTy, no_type, some_type, Tys, no_types, cons_type}
use dast_lang.Ast.Items.{Param}
use dast_lang.Typecheck.Types.{
  Kind, CheckedType, checked_type, some_checked_type, CheckedTypes, no_checked_types,
  cons_checked_type, type_tuple, type_array, default_name,
}

-- `if t.Ref { out.IsRef = true; out.IsMut = t.Mut }`.
abbrev pub with_ref : Bool → Bool → Ty → Ty
with_ref false mut t = t
with_ref true mut (ty n r m a t e es xs) = ty n true mut a t e es xs

abbrev plain_type : String → Tys → Ty
plain_type n xs = ty n false false false false no_type no_types xs

abbrev ast_name : Kind → String → String
unfolding default_name
ast_name kind name = if str_eq name "" then default_name kind else name

unfoldable mutual
  unfolding ast_name

  pub type_to_ast : CheckedType → Ty
  type_to_ast (checked_type type_tuple ref mut name elem args elems) =
      with_ref ref mut (ty "" false false false true no_type (types_to_ast elems) no_types)
  type_to_ast (checked_type type_array ref mut name (some_checked_type elem) args elems) =
      with_ref ref mut
        (ty "" false false true false (some_type (type_to_ast elem)) no_types no_types)
  type_to_ast (checked_type kind ref mut name elem args elems) =
      with_ref ref mut (plain_type (ast_name kind name) (types_to_ast args))

  pub types_to_ast : CheckedTypes → Tys
  types_to_ast no_checked_types = no_types
  types_to_ast (cons_checked_type t ts) = cons_type (type_to_ast t) (types_to_ast ts)

-- The types for the names of type parameters, and the type of `Self` (`c.selfType`).
pub record Subst : Type 0 where
  pub types : String → Option CheckedType
  pub self_type : Option CheckedType

abbrev self_or : Option CheckedType → Option CheckedType → Option CheckedType
self_or none self = self
self_or (some rep) self = some rep

-- What a name stands for. Where `Self` has no type of its own, it has none in `subst` either.
unfoldable pub replacement : Subst → String → Option CheckedType
replacement subst name =
    if str_eq name "Self" then self_or (subst.types "Self") subst.self_type else subst.types name

unfoldable mutual
  unfolding type_to_ast replacement

  pub clone_type : Subst → Ty → Ty
  clone_type subst (ty n r m true t e es xs) =
      ty n r m true t (clone_elem subst e) (if t then clone_types subst es else es)
        (clone_types subst xs)
  clone_type subst (ty n r m false t e es xs) = elim (replacement subst n) [
    | some rep ↦ with_ref r m (type_to_ast rep)
    | none ↦ ty n r m false t e (if t then clone_types subst es else es) (clone_types subst xs)
  ]

  pub clone_elem : Subst → OptTy → OptTy
  clone_elem subst no_type = no_type
  clone_elem subst (some_type t) = some_type (clone_type subst t)

  pub clone_types : Subst → Tys → Tys
  clone_types subst no_types = no_types
  clone_types subst (cons_type t ts) = cons_type (clone_type subst t) (clone_types subst ts)

abbrev pub clone_param : Subst → Param → Param
unfolding clone_type
clone_param subst p = record p { type = clone_type subst p.type }
