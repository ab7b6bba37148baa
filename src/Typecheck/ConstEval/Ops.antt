-- ===== src/Typecheck/ConstEval/Ops.antt =====
-- The operators on constants of compiler/stage0/internal/typecheck/const_eval.go. A clause stands for
-- a case of a switch with the kinds of its test; a returned `false` is `none`.
use dast_lang.Base.{
  if◌then◌else◌, ℕ, String, Bool, false, not, ◌&&◌, ◌||◌, Option, none, some, ◌==◌, runes_eq,
}
use text.Mathlib.Text.{◌==◌ as str_eq}
use dast_lang.Ast.Values.{ConstValue, const_int, const_bool, const_string, const_char, const_float}
use dast_lang.Base.Int64.{
  add64, sub64, mul64, div64, rem64, neg64, lt64, le64, and64, or64, xor64, shl64, shr64,
  is_negative, two63,
}
use dast_lang.Interp.Arith.{UnaryOp, minus, bang, other_unary}
use dast_lang.Ir.Fold.{bool_eq}
use dast_lang.Ir.Syntax.{
  BinaryOp, add, sub, mul, div, rem, eq, ne, lt, le, gt, ge, and, or, bit_and, bit_or, bit_xor, shl,
  shr, other,
}
use dast_lang.Typecheck.ConstEval.Floats.{Floats}

-- The texts of the switches.
unfoldable pub unary_op : String → UnaryOp
unary_op op = if str_eq op "-" then minus else if str_eq op "!" then bang else other_unary op

unfoldable pub binary_op : String → BinaryOp
binary_op op =
    if str_eq op "+"
    then add
    else if str_eq op "-"
    then sub
    else if str_eq op "*"
    then mul
    else if str_eq op "/"
    then div
    else if str_eq op "%"
    then rem
    else if str_eq op "&"
    then bit_and
    else if str_eq op "|"
    then bit_or
    else if str_eq op "^"
    then bit_xor
    else if str_eq op "<<"
    then shl
    else if str_eq op ">>"
    then shr
    else if str_eq op "=="
    then eq
    else if str_eq op "!="
    then ne
    else if str_eq op "<"
    then lt
    else if str_eq op "<="
    then le
    else if str_eq op ">"
    then gt
    else if str_eq op ">="
    then ge
    else if str_eq op "&&"
    then and
    else if str_eq op "||"
    then or
    else other op

-- `intFitsF64`: the least integer does not fit, of the others those up to 2 ^ 53 away from 0.
unfoldable pub int_fits_f64 : ℕ → Bool
unfolding neg64
int_fits_f64 v =
    if v == two63 then false else le64 (if lt64 v 0 then neg64 v else v) 9007199254740992

-- The operators on two integers of `constNumericBinary`, `constIntBinary` and `constShiftBinary`.
abbrev pub const_int_op : BinaryOp → ℕ → ℕ → Option ConstValue
const_int_op add a b = some (const_int (add64 a b))
const_int_op sub a b = some (const_int (sub64 a b))
const_int_op mul a b = some (const_int (mul64 a b))
const_int_op div a b = if b == 0 then none else some (const_int (div64 a b))
const_int_op rem a b = if b == 0 then none else some (const_int (rem64 a b))
const_int_op bit_and a b = some (const_int (and64 a b))
const_int_op bit_or a b = some (const_int (or64 a b))
const_int_op bit_xor a b = some (const_int (xor64 a b))
const_int_op shl a b = if is_negative b then none else some (const_int (shl64 a b))
const_int_op shr a b = if is_negative b then none else some (const_int (shr64 a b))
const_int_op _ a b = none

-- `constIntBinary` and `constShiftBinary`.
unfoldable pub const_int_binary : BinaryOp → ConstValue → ConstValue → Option ConstValue
const_int_binary op (const_int a) (const_int b) = const_int_op op a b
const_int_binary op _ _ = none

-- `==` or `!=`.
abbrev pub same_or_not : BinaryOp → Bool → Option ConstValue
same_or_not eq b = some (const_bool b)
same_or_not _ b = some (const_bool (not b))

abbrev pub compare_ints : BinaryOp → ℕ → ℕ → Option ConstValue
compare_ints lt a b = some (const_bool (lt64 a b))
compare_ints le a b = some (const_bool (le64 a b))
compare_ints gt a b = some (const_bool (lt64 b a))
compare_ints ge a b = some (const_bool (le64 b a))
compare_ints _ a b = none

unfoldable pub const_bool_binary : BinaryOp → ConstValue → ConstValue → Option ConstValue
const_bool_binary and (const_bool a) (const_bool b) = some (const_bool (a && b))
const_bool_binary or (const_bool a) (const_bool b) = some (const_bool (a || b))
const_bool_binary op _ _ = none

module _ (fl : Floats) where
  abbrev const_float_val : ConstValue → Option fl.Float
  const_float_val (const_float text) = fl.parse_float text
  const_float_val _ = none

  abbrev both_floats : Option fl.Float → Option fl.Float → Option (fl.Float × fl.Float)
  both_floats (some a) (some b) = some (a, b)
  both_floats _ _ = none

  -- An integer as a float, where it fits.
  abbrev float_of_int : ℕ → Option fl.Float
  unfolding int_fits_f64
  float_of_int v = if int_fits_f64 v then some (fl.of_int v) else none

  unfoldable pub promote_float : ConstValue → ConstValue → Option (fl.Float × fl.Float)
  unfolding int_fits_f64
  promote_float (const_float a) (const_float b) = both_floats (fl.parse_float a) (fl.parse_float b)
  promote_float (const_float a) (const_int b) = both_floats (fl.parse_float a) (float_of_int b)
  promote_float (const_int a) (const_float b) = both_floats (float_of_int a) (fl.parse_float b)
  promote_float _ _ = none

  abbrev float_value : fl.Float → Option ConstValue
  float_value a = some (const_float (fl.format_float a))

  abbrev float_op : Option (fl.Float × fl.Float) → BinaryOp → Option ConstValue
  float_op none op = none
  float_op (some (a, b)) add = float_value (fl.add a b)
  float_op (some (a, b)) sub = float_value (fl.sub a b)
  float_op (some (a, b)) mul = float_value (fl.mul a b)
  float_op (some (a, b)) div = if fl.is_zero b then none else float_value (fl.div a b)
  float_op (some (a, b)) _ = none

  unfoldable pub const_numeric_binary : BinaryOp → ConstValue → ConstValue → Option ConstValue
  unfolding promote_float
  const_numeric_binary op (const_int a) (const_int b) = const_int_op op a b
  const_numeric_binary op lhs rhs = float_op (promote_float lhs rhs) op

  abbrev float_same : BinaryOp → Option (fl.Float × fl.Float) → Option ConstValue
  float_same op (some (a, b)) = same_or_not op (fl.eq a b)
  float_same op none = none

  unfoldable pub const_equality_binary : BinaryOp → ConstValue → ConstValue → Option ConstValue
  unfolding promote_float
  const_equality_binary op (const_string a) (const_string b) = same_or_not op (runes_eq a b)
  const_equality_binary op (const_bool a) (const_bool b) = same_or_not op (bool_eq a b)
  const_equality_binary op (const_char a) (const_char b) = same_or_not op (a == b)
  const_equality_binary op (const_int a) (const_int b) = same_or_not op (a == b)
  const_equality_binary op lhs rhs = float_same op (promote_float lhs rhs)

  abbrev compare_floats : Option (fl.Float × fl.Float) → BinaryOp → Option ConstValue
  compare_floats none op = none
  compare_floats (some (a, b)) lt = some (const_bool (fl.lt a b))
  compare_floats (some (a, b)) le = some (const_bool (fl.le a b))
  compare_floats (some (a, b)) gt = some (const_bool (fl.lt b a))
  compare_floats (some (a, b)) ge = some (const_bool (fl.le b a))
  compare_floats (some (a, b)) _ = none

  unfoldable pub const_compare_binary : BinaryOp → ConstValue → ConstValue → Option ConstValue
  unfolding promote_float
  const_compare_binary op (const_char a) (const_char b) = compare_ints op a b
  const_compare_binary op (const_int a) (const_int b) = compare_ints op a b
  const_compare_binary op lhs rhs = compare_floats (promote_float lhs rhs) op
