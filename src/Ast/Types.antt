-- ===== src/Ast/Types.antt =====
-- The types of compiler/stage0/internal/ast/type.go, and the parts of closures.go and generics that
-- hold types alone; spans are left out.
use dast_lang.Base.{String, Bool}

mutual
  pub data Ty : Type 0 where
    ty :
        (name : String) (is_ref is_mut is_array is_tuple : Bool) (elem : OptTy)
        (tuple_elems args : Tys)
        → Ty

  -- A pointer to a type, which may be nil.
  pub data OptTy : Type 0 where
    no_type : OptTy
    some_type : Ty → OptTy

  pub data Tys : Type 0 where
    no_types : Tys
    cons_type : (head : Ty) (tail : Tys) → Tys

pub record ClosureParam : Type 0 where
  pub name : String
  pub type : OptTy
