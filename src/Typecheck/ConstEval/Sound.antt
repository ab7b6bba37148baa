-- ===== src/Typecheck/ConstEval/Sound.antt =====
-- `evalConstExpr` of compiler/stage0/internal/typecheck/const_eval.go against the code for the same
-- expression.
use dast_lang.Base.Int64.{two64, neg64, sub64}
use dast_lang.Base.{◌%◌, ℕ, suc, String, true, false, Option, none, some, ◌≡◌, refl, ap, arith}
use dast_lang.Interp.Store.{ok, Objects}
use dast_lang.Typecheck.ConstEval.Eval.{
  on_value, on_values, const_unary, const_binary, eval_const_expr,
}
use mathlib.Core.Path.{subst}
use dast_lang.Typecheck.ConstEval.OpsAgree.{
  Agrees, const_int_binary-Agrees, const_numeric_binary-Agrees, const_compare_binary-Agrees,
  values_equal-Agrees,
}
use dast_lang.Typecheck.ConstEval.Ops.{const_bool_binary, unary_op, binary_op}
use dast_lang.Typecheck.ConstEval.Lowered.{
  value_of, Strict, NoFloat, NoFloats, Runs, runs_int, runs_char, runs_bool, runs_string,
  runs_minus, runs_bang, runs_and_true, runs_and_false, runs_or_true, runs_or_false, runs_strict,
}
use dast_lang.Typecheck.ConstEval.Floats.{Floats}
use dast_lang.Ast.Values.{ConstValue, const_int, const_bool, const_string, const_char, const_float}
use dast_lang.Ast.Tree.{Expr, int_lit, char_lit, float_lit, bool_lit, string_lit, unary, binary}
use dast_lang.Interp.Arith.{eval_binary, pick_int_type, UnaryOp, minus, bang, other_unary}
use dast_lang.Ir.Syntax.{
  int, bool, BinaryOp, add, sub, mul, div, rem, eq, ne, lt, le, gt, ge, and, or, bit_and, bit_or,
  bit_xor, shl, shr, other,
}

sub64-zero : (n : ℕ) → sub64 0 n ≡ neg64 n
unfolding sub64 neg64
sub64-zero n = ap (λ k. k % two64) (omega arith)

module _ (objects : Objects) (fuel : ℕ) (fl : Floats) where
  const_binary-Agrees :
      (op : BinaryOp) (a b : ConstValue)
      → Strict op
      → NoFloat a
      → NoFloat b
      → Agrees
          (eval_binary objects (suc fuel) op (value_of a) (value_of b))
          (const_binary fl op a b)
  unfolding const_binary eval_binary
  const_binary-Agrees add (const_string a) (const_string b) s p q = (refl, tt)
  const_binary-Agrees add (const_int a) b s p q =
      const_numeric_binary-Agrees objects fuel fl add (const_int a) b p q
  const_binary-Agrees add (const_bool a) b s p q =
      const_numeric_binary-Agrees objects fuel fl add (const_bool a) b p q
  const_binary-Agrees add (const_char a) b s p q =
      const_numeric_binary-Agrees objects fuel fl add (const_char a) b p q
  const_binary-Agrees add a b s p q = const_numeric_binary-Agrees objects fuel fl add a b p q
  const_binary-Agrees sub a b s p q = const_numeric_binary-Agrees objects fuel fl sub a b p q
  const_binary-Agrees mul a b s p q = const_numeric_binary-Agrees objects fuel fl mul a b p q
  const_binary-Agrees div a b s p q = const_numeric_binary-Agrees objects fuel fl div a b p q
  const_binary-Agrees rem a b s p q = const_int_binary-Agrees objects fuel fl rem a b
  const_binary-Agrees bit_and a b s p q = const_int_binary-Agrees objects fuel fl bit_and a b
  const_binary-Agrees bit_or a b s p q = const_int_binary-Agrees objects fuel fl bit_or a b
  const_binary-Agrees bit_xor a b s p q = const_int_binary-Agrees objects fuel fl bit_xor a b
  const_binary-Agrees shl a b s p q = const_int_binary-Agrees objects fuel fl shl a b
  const_binary-Agrees shr a b s p q = const_int_binary-Agrees objects fuel fl shr a b
  const_binary-Agrees eq a b s p q = values_equal-Agrees objects fuel fl eq a b p q
  const_binary-Agrees ne a b s p q = values_equal-Agrees objects fuel fl ne a b p q
  const_binary-Agrees lt a b s p q = const_compare_binary-Agrees objects fuel fl lt a b p q
  const_binary-Agrees le a b s p q = const_compare_binary-Agrees objects fuel fl le a b p q
  const_binary-Agrees gt a b s p q = const_compare_binary-Agrees objects fuel fl gt a b p q
  const_binary-Agrees ge a b s p q = const_compare_binary-Agrees objects fuel fl ge a b p q
  const_binary-Agrees and a b s p q = absurd s
  const_binary-Agrees or a b s p q = absurd s
  const_binary-Agrees (other x) a b s p q = tt

  -- What is known of an expression that has a constant value.
  abbrev Found : Expr → Option ConstValue → Type 0
  Found e none = Unit
  Found e (some c) = Runs objects (suc fuel) e (value_of c) × NoFloat c

  Strict-Found :
      (op : String) (bop : BinaryOp) (l r : Expr) (a b : ConstValue)
      → binary_op op ≡ bop
      → Strict bop
      → Found l (some a)
      → Found r (some b)
      → Found (binary op l r) (const_binary fl bop a b)
  Strict-Found op bop l r a b is_op strict (run, p) (run', q) =
      agreed (const_binary fl bop a b) (const_binary-Agrees bop a b strict p q)
    where
      agreed :
          (o : Option ConstValue)
          → Agrees (eval_binary objects (suc fuel) bop (value_of a) (value_of b)) o
          → Found (binary op l r) o
      agreed none h = tt
      agreed (some c) (e, plain) = (
        runs_strict op bop l r (value_of a) (value_of b) (value_of c) is_op strict run run' e,
        plain,
      )

  and_op-Found :
      (op : String) (l r : Expr) (a b : ConstValue)
      → binary_op op ≡ and
      → Found l (some a)
      → Found r (some b)
      → Found (binary op l r) (const_binary fl and a b)
  unfolding const_binary const_bool_binary
  and_op-Found op l r (const_bool true) (const_bool b) is_and (run, p) (run', q) =
      (runs_and_true op l r (bool b) is_and run run', tt)
  and_op-Found op l r (const_bool false) (const_bool b) is_and (run, p) found =
      (runs_and_false op l r is_and run, tt)
  and_op-Found op l r _ _ is_and found found' = tt

  or_op-Found :
      (op : String) (l r : Expr) (a b : ConstValue)
      → binary_op op ≡ or
      → Found l (some a)
      → Found r (some b)
      → Found (binary op l r) (const_binary fl or a b)
  unfolding const_binary const_bool_binary
  or_op-Found op l r (const_bool true) (const_bool b) is_or (run, p) found =
      (runs_or_true op l r is_or run, tt)
  or_op-Found op l r (const_bool false) (const_bool b) is_or (run, p) (run', q) =
      (runs_or_false op l r (bool b) is_or run run', tt)
  or_op-Found op l r _ _ is_or found found' = tt

  binary-Found :
      (op : String) (l r : Expr) (a b : ConstValue) (bop : BinaryOp)
      → binary_op op ≡ bop
      → Found l (some a)
      → Found r (some b)
      → Found (binary op l r) (const_binary fl bop a b)
  binary-Found op l r a b and e found found' = and_op-Found op l r a b e found found'
  binary-Found op l r a b or e found found' = or_op-Found op l r a b e found found'
  binary-Found op l r a b bop e found found' = Strict-Found op _ l r a b e tt found found'

  unary-Found :
      (op : String) (e : Expr) (c : ConstValue) (uop : UnaryOp)
      → unary_op op ≡ uop
      → Found e (some c)
      → Found (unary op e) (const_unary fl uop c)
  unfolding const_unary eval_binary pick_int_type
  unary-Found op e (const_int n) minus h (run, p) =
      (runs_minus op e (int n "") _ h run (ap (λ k. ok (int k "")) (sub64-zero n)), tt)
  unary-Found op e (const_bool true) bang h (run, p) = (runs_bang op e (bool true) _ h run refl, tt)
  unary-Found op e (const_bool false) bang h (run, p) =
      (runs_bang op e (bool false) _ h run refl, tt)
  unary-Found op e (const_float text) minus h (run, p) = absurd p
  unary-Found op e _ minus h found = tt
  unary-Found op e _ bang h found = tt
  unary-Found op e _ (other_unary x) h found = tt

  on_value-Found :
      (op : String) (e : Expr) (o : Option ConstValue)
      → Found e o
      → Found (unary op e) (on_value fl (unary_op op) o)
  unfolding on_value
  on_value-Found op e none found = tt
  on_value-Found op e (some c) found = unary-Found op e c (unary_op op) refl found

  on_values-Found :
      (op : String) (l r : Expr) (o o' : Option ConstValue)
      → Found l o
      → Found r o'
      → Found (binary op l r) (on_values fl (binary_op op) o o')
  unfolding on_values
  on_values-Found op l r (some a) (some b) found found' =
      binary-Found op l r a b (binary_op op) refl found found'
  on_values-Found op l r none o' found found' = tt
  on_values-Found op l r (some a) none found found' = tt

  eval_const_expr-Found : (e : Expr) → NoFloats e → Found e (eval_const_expr fl e)
  unfolding eval_const_expr
  eval_const_expr-Found (int_lit n) plain = (runs_int n, tt)
  eval_const_expr-Found (char_lit n) plain = (runs_char n, plain)
  eval_const_expr-Found (bool_lit b) plain = (runs_bool b, tt)
  eval_const_expr-Found (string_lit s) plain = (runs_string s, tt)
  eval_const_expr-Found (float_lit text) plain = absurd plain
  eval_const_expr-Found (unary op e) plain = on_value-Found op e _ (eval_const_expr-Found e plain)
  eval_const_expr-Found (binary op l r) plain =
      on_values-Found op l r _ _ (eval_const_expr-Found l plain.0) (eval_const_expr-Found r plain.1)
  eval_const_expr-Found _ plain = tt

  -- What an expression evaluates to as a constant, the code for it computes at run time, provided that
  -- it has no float literal and that its characters are below 2 ^ 63.
  pub eval_const_expr-Runs :
      (e : Expr) (c : ConstValue)
      → NoFloats e
      → eval_const_expr fl e ≡ some c
      → Runs objects (suc fuel) e (value_of c)
  eval_const_expr-Runs e c plain evaluated =
      (subst (Found e) evaluated (eval_const_expr-Found e plain)).0
