-- ===== src/Typecheck/ConstEval/Lowered.antt =====
-- The value of an expression of literals and operators at run time: the code that `compileExpr` of
-- compiler/stage0/internal/compile/expr.go emits for it, and what the interpreter's `evalBinary` makes
-- of that code. `-e` is lowered to `0 - e`, `!e` to `e == false`, and `&&` and `||` to an `if`.
use dast_lang.Ast.Tree.{float_lit, Expr, int_lit, char_lit, bool_lit, string_lit, unary, binary}
use dast_lang.Base.{Runes, ℕ, String, Bool, true, false, ◌≡◌, ◌<◌}
use dast_lang.Ast.Values.{ConstValue, const_int, const_bool, const_string, const_char, const_float}
use dast_lang.Base.Int64.{two63}
use dast_lang.Interp.Arith.{eval_binary, minus, bang}
use dast_lang.Interp.Store.{Objects, ok}
use dast_lang.Ir.Syntax.{Value, int, bool, string, float, BinaryOp, sub, eq, and, or}
use dast_lang.Typecheck.ConstEval.Ops.{unary_op, binary_op}

-- What `constValueToIr` makes of a constant where no type is declared.
abbrev pub value_of : ConstValue → Value
value_of (const_int n) = int n ""
value_of (const_bool b) = bool b
value_of (const_string s) = string s
value_of (const_char n) = int n "char"
value_of (const_float text) = float text

-- The operators that are not lowered to an `if`.
abbrev pub Strict : BinaryOp → Type 0
Strict and = ⊥
Strict or = ⊥
Strict _ = Unit

module _ (objects : Objects) (fuel : ℕ) where
  pub data Runs : Expr → Value → Type 0 where
    runs_int : (n : ℕ) → Runs (int_lit n) (int n "")
    runs_char : (n : ℕ) → Runs (char_lit n) (int n "char")
    runs_bool : (b : Bool) → Runs (bool_lit b) (bool b)
    runs_string : (s : Runes) → Runs (string_lit s) (string s)
    runs_minus :
        (op : String) (e : Expr) (v w : Value)
        → unary_op op ≡ minus
        → Runs e v
        → eval_binary objects fuel sub (int 0 "") v ≡ ok w
        → Runs (unary op e) w
    runs_bang :
        (op : String) (e : Expr) (v w : Value)
        → unary_op op ≡ bang
        → Runs e v
        → eval_binary objects fuel eq v (bool false) ≡ ok w
        → Runs (unary op e) w
    runs_and_true :
        (op : String) (l r : Expr) (v : Value)
        → binary_op op ≡ and
        → Runs l (bool true)
        → Runs r v
        → Runs (binary op l r) v
    runs_and_false :
        (op : String) (l r : Expr)
        → binary_op op ≡ and
        → Runs l (bool false)
        → Runs (binary op l r) (bool false)
    runs_or_true :
        (op : String) (l r : Expr)
        → binary_op op ≡ or
        → Runs l (bool true)
        → Runs (binary op l r) (bool true)
    runs_or_false :
        (op : String) (l r : Expr) (v : Value)
        → binary_op op ≡ or
        → Runs l (bool false)
        → Runs r v
        → Runs (binary op l r) v
    runs_strict :
        (op : String) (bop : BinaryOp) (l r : Expr) (a b v : Value)
        → binary_op op ≡ bop
        → Strict bop
        → Runs l a
        → Runs r b
        → eval_binary objects fuel bop a b ≡ ok v
        → Runs (binary op l r) v

-- No literal is a float, and no character is a negative number.
abbrev pub NoFloats : Expr → Type 0
NoFloats (float_lit text) = ⊥
NoFloats (char_lit n) = n < two63
NoFloats (unary op e) = NoFloats e
NoFloats (binary op l r) = NoFloats l × NoFloats r
NoFloats _ = Unit

abbrev pub NoFloat : ConstValue → Type 0
NoFloat (const_float text) = ⊥
NoFloat (const_char n) = n < two63
NoFloat _ = Unit
