-- ===== src/Interp/Store.antt =====
-- The objects behind the pointers in a `Value` (`StructValue`, `EnumValue`, `ArrayValue` of
-- compiler/stage0/internal/ir/ir.go) and the outcome of a step of the interpreter.
use dast_lang.Base.{ℕ, String, Option, List}
use dast_lang.Ir.Syntax.{Value}

pub data Object : Type 0 where
  struct_value : (name : String) (fields : List (String × Value)) → Object
  enum_value : (name variant : String) (payload : Option Value) → Object
  array_value : (elems : List Value) → Object

abbrev pub Objects : Type 0
Objects = ℕ → Option Object

-- The errors that the interpreter returns, without their texts; `panic` is a Go run-time panic, and
-- `out_of_fuel` says that the model's bound on a recursion was too small.
pub data Error : Type 0 where
  type_error division_by_zero negative_shift unknown_op undefined_variable : Error
  invalid_temp invalid_reference unknown_field out_of_bounds : Error
  undefined_function wrong_arity unknown_block : Error
  failure : String → Error
  panic out_of_fuel : Error

pub data Result {ℓ} (A : Type ℓ) : Type ℓ where
  ok : A → Result A
  err : Error → Result A

infixl 5 ◌>>=◌
abbrev pub ◌>>=◌ {ℓ κ} : {A : Type ℓ} {B : Type κ} → Result A → (A → Result B) → Result B
ok a >>= f = f a
err e >>= f = err e
