-- ===== src/Typecheck/ConstEval/Examples.antt =====
-- Constant expressions at concrete operands.
use dast_lang.Typecheck.ConstEval.Sound.{eval_const_expr-Runs}
use dast_lang.Base.Int64.{lt64, neg64, div64, sub64}
use dast_lang.Typecheck.ConstEval.Ops.{
  const_bool_binary, const_compare_binary, const_equality_binary, const_numeric_binary, binary_op,
  unary_op,
}
use dast_lang.Typecheck.ConstEval.Eval.{const_binary, const_unary, eval_const_expr}
use dast_lang.Base.{◌==◌, ℕ, ◌≡◌, refl, none, false, true, arith}
use dast_lang.Ast.Tree.{Expr, int_lit, char_lit, unary, binary}
use dast_lang.Ast.Values.{const_bool}
use dast_lang.Typecheck.ConstEval.Floats.{Floats}
use dast_lang.Typecheck.ConstEval.Lowered.{Runs, value_of}

-- Floats that no text denotes.
abbrev no_floats : Floats
no_floats = record {
  Float = ℕ;
  parse_float = λ text. none;
  format_float = λ x. "0";
  of_int = λ n. n;
  is_zero = λ x. x == 0;
  neg = λ x. x;
  add = λ x y. x;
  sub = λ x y. x;
  mul = λ x y. x;
  div = λ x y. x;
  eq = λ x y. x == y;
  lt = λ x y. false;
  le = λ x y. false;
}

-- `-7 / 2 == -3 && !('b' < 'a')`.
abbrev sample : Expr
sample =
    binary "&&"
      (binary "==" (binary "/" (unary "-" (int_lit 7)) (int_lit 2)) (unary "-" (int_lit 3)))
      (unary "!" (binary "<" (char_lit 98) (char_lit 97)))

eval_const_expr-Runs_example : Runs (λ p. none) 1 sample (value_of (const_bool true))
unfolding eval_const_expr unary_op binary_op const_unary const_binary const_numeric_binary
    const_equality_binary const_compare_binary const_bool_binary div64 neg64 lt64
eval_const_expr-Runs_example =
    eval_const_expr-Runs (λ p. none) 0 no_floats sample (const_bool true)
      (((tt, tt), tt), (omega arith, omega arith)) refl

division_by_zero_result :
    eval_const_expr no_floats (binary "/" (int_lit 1) (binary "-" (int_lit 2) (int_lit 2))) ≡ none
unfolding eval_const_expr unary_op binary_op const_unary const_binary const_numeric_binary sub64
division_by_zero_result = refl
