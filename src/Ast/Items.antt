-- ===== src/Ast/Items.antt =====
-- The items of a program: compiler/stage0/internal/ast/decl.go, trait.go, generic.go, macro.go,
-- program.go and visibility.go; spans are left out. Integers are 64-bit patterns.
use dast_lang.Base.{ℕ, String, Bool, List}
use dast_lang.Ast.Tree.{Expr, Block}
use dast_lang.Ast.Types.{Ty, OptTy, Tys}
use dast_lang.Ast.Values.{ConstValue}

pub data Visibility : Type 0 where
  vis_private vis_public : Visibility

pub record TypeParam : Type 0 where
  pub name : String
  pub bounds : Tys

pub record Param : Type 0 where
  pub name : String
  pub type : Ty

pub record FieldDef : Type 0 where
  pub name : String
  pub type : Ty

pub record VariantDef : Type 0 where
  pub name : String
  pub payload : OptTy
  pub has_value : Bool
  pub value : ℕ

pub record Function : Type 0 where
  pub name : String
  pub type_params : List TypeParam
  pub params : List Param
  pub return_type : OptTy
  pub body : Block
  pub vis : Visibility
  pub is_macro : Bool

pub record TraitMethod : Type 0 where
  pub name : String
  pub params : List Param
  pub return_type : OptTy

pub data Item : Type 0 where
  no_item : Item
  function_item : Function → Item
  import_decl : (path alias : String) → Item
  struct_decl :
      (name : String) (type_params : List TypeParam) (repr : String) (fields : List FieldDef)
      (vis : Visibility)
      → Item
  const_decl :
      (name : String) (type : OptTy) (expr : Expr) (value : ConstValue) (vis : Visibility) → Item
  enum_decl :
      (name : String) (type_params : List TypeParam) (repr : String) (variants : List VariantDef)
      (vis : Visibility)
      → Item
  impl_decl :
      (type_name : String) (type_args : Tys) (type_params : List TypeParam)
      (methods : List Function) (vis : Visibility)
      → Item
  trait_decl :
      (name : String) (type_params : List TypeParam) (methods : List TraitMethod) (vis : Visibility)
      → Item
  impl_trait :
      (trait_name : String) (trait_args : Tys) (for_type_name : String) (for_type_args : Tys)
      (type_params : List TypeParam) (methods : List Function) (vis : Visibility)
      → Item
  type_alias : (name : String) (type_params : List TypeParam) (value : Ty) (vis : Visibility) → Item
  compile_item : (expr : Expr) → Item
