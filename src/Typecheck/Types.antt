-- ===== src/Typecheck/Types.antt =====
-- The checker's `Kind` and `Type` of compiler/stage0/internal/typecheck/types.go.
use dast_lang.Base.{String, Bool}

pub data Kind : Type 0 where
  type_invalid type_param type_int type_float type_bool type_string type_str type_unit : Kind
  type_struct type_enum type_array type_tuple type_closure : Kind
  type_ast_expr type_ast_stmt type_ast_item type_ast_block : Kind

mutual
  pub data CheckedType : Type 0 where
    checked_type :
        (kind : Kind) (ref mut : Bool) (name : String) (elem : OptCheckedType)
        (args elems : CheckedTypes)
        → CheckedType

  -- A pointer, which may be nil.
  pub data OptCheckedType : Type 0 where
    no_checked_type : OptCheckedType
    some_checked_type : CheckedType → OptCheckedType

  pub data CheckedTypes : Type 0 where
    no_checked_types : CheckedTypes
    cons_checked_type : (head : CheckedType) (tail : CheckedTypes) → CheckedTypes

-- `baseName` of a type without a name, for the kinds that `typeToAst` asks it for: neither a tuple
-- nor an array with elements.
unfoldable pub default_name : Kind → String
default_name type_invalid = "invalid"
default_name type_param = "T"
default_name type_int = "int"
default_name type_float = "f64"
default_name type_bool = "bool"
default_name type_string = "String"
default_name type_str = "str"
default_name type_unit = "unit"
default_name type_struct = "named"
default_name type_enum = "named"
default_name type_array = "[]"
default_name type_tuple = "()"
default_name type_closure = "closure"
default_name type_ast_expr = "AstExpr"
default_name type_ast_stmt = "AstStmt"
default_name type_ast_item = "AstItem"
default_name type_ast_block = "AstBlock"
