-- ===== src/Typecheck/ConstEval/Eval.antt =====
-- `evalConstExpr` of compiler/stage0/internal/typecheck/const_eval.go.
use dast_lang.Ir.Syntax.{
  other, BinaryOp, add, sub, mul, div, rem, eq, ne, lt, le, gt, ge, and, or, bit_and, bit_or,
  bit_xor, shl, shr,
}
use dast_lang.Ast.Tree.{Expr, int_lit, char_lit, float_lit, bool_lit, string_lit, unary, binary}
use dast_lang.Ast.Values.{ConstValue, const_int, const_bool, const_string, const_char, const_float}
use dast_lang.Base.{not, Option, none, some, ◌++◌}
use dast_lang.Base.Int64.{neg64}
use dast_lang.Interp.Arith.{UnaryOp, minus, bang}
use dast_lang.Typecheck.ConstEval.Floats.{Floats}
use dast_lang.Typecheck.ConstEval.Ops.{
  unary_op, binary_op, const_numeric_binary, const_int_binary, const_equality_binary,
  const_compare_binary, const_bool_binary,
}

module _ (fl : Floats) where
  abbrev negated_float : Option fl.Float → Option ConstValue
  negated_float none = none
  negated_float (some a) = some (const_float (fl.format_float (fl.neg a)))

  unfoldable pub const_unary : UnaryOp → ConstValue → Option ConstValue
  const_unary minus (const_int a) = some (const_int (neg64 a))
  const_unary minus (const_float text) = negated_float (fl.parse_float text)
  const_unary bang (const_bool b) = some (const_bool (not b))
  const_unary _ _ = none

  unfoldable pub const_binary : BinaryOp → ConstValue → ConstValue → Option ConstValue
  unfolding const_numeric_binary const_int_binary const_equality_binary const_compare_binary
      const_bool_binary
  const_binary add (const_string a) (const_string b) = some (const_string (a ++ b))
  const_binary add lhs rhs = const_numeric_binary fl add lhs rhs
  const_binary sub lhs rhs = const_numeric_binary fl sub lhs rhs
  const_binary mul lhs rhs = const_numeric_binary fl mul lhs rhs
  const_binary div lhs rhs = const_numeric_binary fl div lhs rhs
  const_binary rem lhs rhs = const_int_binary rem lhs rhs
  const_binary bit_and lhs rhs = const_int_binary bit_and lhs rhs
  const_binary bit_or lhs rhs = const_int_binary bit_or lhs rhs
  const_binary bit_xor lhs rhs = const_int_binary bit_xor lhs rhs
  const_binary shl lhs rhs = const_int_binary shl lhs rhs
  const_binary shr lhs rhs = const_int_binary shr lhs rhs
  const_binary eq lhs rhs = const_equality_binary fl eq lhs rhs
  const_binary ne lhs rhs = const_equality_binary fl ne lhs rhs
  const_binary lt lhs rhs = const_compare_binary fl lt lhs rhs
  const_binary le lhs rhs = const_compare_binary fl le lhs rhs
  const_binary gt lhs rhs = const_compare_binary fl gt lhs rhs
  const_binary ge lhs rhs = const_compare_binary fl ge lhs rhs
  const_binary and lhs rhs = const_bool_binary and lhs rhs
  const_binary or lhs rhs = const_bool_binary or lhs rhs
  const_binary (other _) lhs rhs = none

  unfoldable pub on_value : UnaryOp → Option ConstValue → Option ConstValue
  unfolding const_unary
  on_value op none = none
  on_value op (some v) = const_unary op v

  unfoldable pub on_values : BinaryOp → Option ConstValue → Option ConstValue → Option ConstValue
  unfolding const_binary
  on_values op (some lhs) (some rhs) = const_binary op lhs rhs
  on_values op _ _ = none

  unfoldable pub eval_const_expr : Expr → Option ConstValue
  unfolding unary_op binary_op on_value on_values
  eval_const_expr (int_lit value) = some (const_int value)
  eval_const_expr (char_lit value) = some (const_char value)
  eval_const_expr (float_lit text) = some (const_float text)
  eval_const_expr (bool_lit value) = some (const_bool value)
  eval_const_expr (string_lit value) = some (const_string value)
  eval_const_expr (unary op expr) = on_value (unary_op op) (eval_const_expr expr)
  eval_const_expr (binary op left right) =
      on_values (binary_op op) (eval_const_expr left) (eval_const_expr right)
  eval_const_expr _ = none
