-- ===== src/Interp/Arith.antt =====
-- `evalUnary`, `evalBinary`, `isUnsignedIntName`, `valuesEqual` and `pickIntType` of
-- compiler/stage0/internal/interp/eval.go.
use dast_lang.Base.{
  ◌%◌, ◌/◌, ℕ, zero, suc, String, Bool, true, false, not, ◌&&◌, ◌||◌, Option, none, some, List, [],
  ◌∷◌, ◌++◌, ◌==◌, ltb, leb, if◌then◌else◌, length, runes_eq,
}
use text.Mathlib.Text.{◌==◌ as str_eq}
use dast_lang.Base.Int64.{
  add64, sub64, mul64, neg64, div64, rem64, lt64, le64, shl64, shr64, shr_u64, and64, or64, xor64,
  is_negative,
}
use dast_lang.Interp.Store.{
  Object, struct_value, enum_value, Objects, Result, ok, err, ◌>>=◌, type_error, division_by_zero,
  negative_shift, unknown_op, out_of_fuel, panic,
}
use dast_lang.Ir.Fold.{bool_eq}
use dast_lang.Ir.Syntax.{
  AstKind, ast_expr, ast_stmt, ast_item, ast_block, Value, int, bool, string, unit, struct, enum,
  ast, BinaryOp, add, sub, mul, div, rem, eq, ne, lt, le, gt, ge, and, or, bit_and, bit_or, bit_xor,
  shl, shr, other,
}

unfoldable pub pick_int_type : String → String → String
pick_int_type a b = if not (str_eq a "") then a else if not (str_eq b "") then b else ""

unfoldable pub is_unsigned_int_name : String → Bool
is_unsigned_int_name name =
    str_eq name "u8"
    || str_eq name "u16"
    || str_eq name "u32"
    || str_eq name "u64"
    || str_eq name "usize"
    || str_eq name "char"

pub data UnaryOp : Type 0 where
  minus bang : UnaryOp
  other_unary : String → UnaryOp

unfoldable pub eval_unary : UnaryOp → Value → Result Value
eval_unary minus (int a s) = ok (int (neg64 a) s)
eval_unary minus _ = err type_error
eval_unary bang (bool b) = ok (bool (not b))
eval_unary bang _ = err type_error
eval_unary (other_unary _) _ = err unknown_op

abbrev ast_kind_eq : AstKind → AstKind → Bool
ast_kind_eq ast_expr ast_expr = true
ast_kind_eq ast_stmt ast_stmt = true
ast_kind_eq ast_item ast_item = true
ast_kind_eq ast_block ast_block = true
ast_kind_eq _ _ = false

abbrev pub lookup_field : String → List (String × Value) → Option Value
lookup_field name [] = none
lookup_field name ((field, v) ∷ fields) =
    if str_eq field name then some v else lookup_field name fields

-- `ok a && b`, where `b` is not run unless the first holds.
abbrev pub both_equal : Result Bool → Result Bool → Result Bool
both_equal (ok true) b = b
both_equal (ok false) b = ok false
both_equal (err e) b = err e

module _ (equal : Value → Value → Result Bool) where
  -- Every field of the first struct is in the second, with an equal value.
  unfoldable pub fields_equal : List (String × Value) → List (String × Value) → Result Bool
  fields_equal [] others = ok true
  fields_equal ((name, v) ∷ fields) others = elim (lookup_field name others) [
    | none ↦ ok false
    | some w ↦ both_equal (equal v w) (fields_equal fields others)
  ]

  unfoldable pub payloads_equal : Option Value → Option Value → Result Bool
  payloads_equal none none = ok true
  payloads_equal (some v) (some w) = equal v w
  payloads_equal _ _ = ok false

  -- Two structs, or two enums, behind pointers that are not nil. No other pointers occur.
  unfoldable pub objects_equal : Option Object → Option Object → Result Bool
  objects_equal (some (struct_value m fields)) (some (struct_value n others)) =
      if str_eq m n && length fields == length others then fields_equal fields others else ok false
  objects_equal (some (enum_value m v p)) (some (enum_value n w q)) =
      if str_eq m n && str_eq v w then payloads_equal p q else ok false
  objects_equal _ _ = ok false

  -- A nil pointer is equal to a nil pointer alone.
  unfoldable pub pointers_equal : Objects → Option ℕ → Option ℕ → Result Bool
  unfolding objects_equal
  pointers_equal objects none none = ok true
  pointers_equal objects (some p) (some q) = objects_equal (objects p) (objects q)
  pointers_equal objects _ _ = ok false

-- `valuesEqual`, on fuel: a struct may hold itself.
unfoldable pub values_equal : Objects → ℕ → Value → Value → Result Bool
unfolding fields_equal payloads_equal objects_equal pointers_equal
values_equal objects zero a b = err out_of_fuel
values_equal objects (suc fuel) (int a s) (int b t) = ok (a == b)
values_equal objects (suc fuel) (bool a) (bool b) = ok (bool_eq a b)
values_equal objects (suc fuel) (string a) (string b) = ok (runes_eq a b)
values_equal objects (suc fuel) unit unit = ok true
values_equal objects (suc fuel) (struct p) (struct q) =
    pointers_equal (λ v w. values_equal objects fuel v w) objects p q
values_equal objects (suc fuel) (enum p) (enum q) =
    pointers_equal (λ v w. values_equal objects fuel v w) objects p q
values_equal objects (suc fuel) (ast k a) (ast j b) = ok (ast_kind_eq k j && runes_eq a b)
values_equal objects (suc fuel) _ _ = ok false

-- Go's `/` and `%` on `int64`, or on `uint64`: a division by zero panics.
abbrev pub go_div : Bool → ℕ → ℕ → Option ℕ
go_div unsigned a b = if b == 0 then none else some (if unsigned then a / b else div64 a b)

abbrev pub go_rem : Bool → ℕ → ℕ → Option ℕ
go_rem unsigned a b = if b == 0 then none else some (if unsigned then a % b else rem64 a b)

abbrev pub int_or_panic : String → Option ℕ → Result Value
int_or_panic t none = err panic
int_or_panic t (some c) = ok (int c t)

-- The two cases `+ - * / %` and `< <= > >=` and the bitwise case, on integers of type `t`.
unfoldable pub eval_ints : BinaryOp → String → ℕ → ℕ → Result Value
unfolding is_unsigned_int_name
eval_ints add t a b = ok (int (add64 a b) t)
eval_ints sub t a b = ok (int (sub64 a b) t)
eval_ints mul t a b = ok (int (mul64 a b) t)
eval_ints div t a b =
    if b == 0 then err division_by_zero else int_or_panic t (go_div (is_unsigned_int_name t) a b)
eval_ints rem t a b =
    if b == 0 then err division_by_zero else int_or_panic t (go_rem (is_unsigned_int_name t) a b)
eval_ints lt t a b = ok (bool (if is_unsigned_int_name t then ltb a b else lt64 a b))
eval_ints le t a b = ok (bool (if is_unsigned_int_name t then leb a b else le64 a b))
eval_ints gt t a b = ok (bool (if is_unsigned_int_name t then ltb b a else lt64 b a))
eval_ints ge t a b = ok (bool (if is_unsigned_int_name t then leb b a else le64 b a))
eval_ints bit_and t a b = ok (int (and64 a b) t)
eval_ints bit_or t a b = ok (int (or64 a b) t)
eval_ints bit_xor t a b = ok (int (xor64 a b) t)
eval_ints shl t a b = if is_negative b then err negative_shift else ok (int (shl64 a b) t)
eval_ints shr t a b =
    if is_negative b
    then err negative_shift
    else ok (int (if is_unsigned_int_name t then shr_u64 a b else shr64 a b) t)
eval_ints _ t a b = err unknown_op

abbrev pub negate_if : Bool → Bool → Value
negate_if neg b = bool (if neg then not b else b)

-- The operators that want integers, or two strings under `+`.
abbrev pub on_ints : BinaryOp → Value → Value → Result Value
on_ints op (int a s) (int b t) = eval_ints op (pick_int_type s t) a b
on_ints add (string a) (string b) = ok (string (a ++ b))
on_ints op _ _ = err type_error

unfoldable pub eval_binary : Objects → ℕ → BinaryOp → Value → Value → Result Value
unfolding values_equal eval_ints pick_int_type
eval_binary objects fuel eq a b = values_equal objects fuel a b >>= λ e. ok (negate_if false e)
eval_binary objects fuel ne a b = values_equal objects fuel a b >>= λ e. ok (negate_if true e)
eval_binary objects fuel and (bool a) (bool b) = ok (bool (a && b))
eval_binary objects fuel and _ _ = err type_error
eval_binary objects fuel or (bool a) (bool b) = ok (bool (a || b))
eval_binary objects fuel or _ _ = err type_error
eval_binary objects fuel (other _) a b = err unknown_op
eval_binary objects fuel op a b = on_ints op a b
