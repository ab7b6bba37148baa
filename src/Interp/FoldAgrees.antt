-- ===== src/Interp/FoldAgrees.antt =====
-- Constant folding (`foldBinary` of compiler/stage0/internal/ir/opt.go) against the interpreter's
-- `evalBinary` (compiler/stage0/internal/interp/eval.go).
use dast_lang.Ir.Syntax.{lt, Value, int, bool, string, BinaryOp}
use dast_lang.Base.{
  ◌≤◌, true, Runes, leb, ltb, ◌%◌, ◌/◌, ℕ, suc, ◌≡◌, ◌⊎◌, inl, inr, ◌<◌, String, Bool, false, some,
  arith,
}
use text.Mathlib.TextEquality.{eq_iff}
use dast_lang.Base.Int64.{two63, div64, rem64, lt64, le64}
use dast_lang.Interp.Arith.{pick_int_type, is_unsigned_int_name, eval_binary}
use dast_lang.Interp.Store.{Objects, ok}
use dast_lang.Ir.Fold.{fold_binary}

-- The type that the result takes is not an unsigned one, or both numbers are below 2 ^ 63, where the
-- signed and the unsigned reading agree.
abbrev pub IntsAgree : Value → Value → Type 0
IntsAgree (int a s) (int b t) =
    (is_unsigned_int_name (pick_int_type s t) ≡ false) ⊎ ((a < two63) × (b < two63))
IntsAgree _ _ = Unit

div64_small : (a b : ℕ) → a < two63 → b < two63 → div64 a b ≡ a / b
unfolding div64
div64_small a b h k = ground arith

rem64_small : (a b : ℕ) → a < two63 → b < two63 → rem64 a b ≡ a % b
unfolding rem64
rem64_small a b h k = ground arith

lt64_small : (a b : ℕ) → a < two63 → b < two63 → lt64 a b ≡ ltb a b
unfolding lt64
lt64_small a b h k = ground arith

le64_small : (a b : ℕ) → a < two63 → b < two63 → le64 a b ≡ leb a b
unfolding le64
le64_small a b h k = ground arith

fold_ints :
    (objects : Objects) (fuel : ℕ) (op : BinaryOp) (a b : ℕ) (s t : String) {v : Value}
    → fold_binary op (int a s) (int b t) ≡ some v
    → IntsAgree (int a s) (int b t)
    → eval_binary objects (suc fuel) op (int a s) (int b t) ≡ ok v
unfolding fold_binary eval_binary
fold_ints objects fuel op a b s t e (inl h) = ground arith
fold_ints objects fuel op a b s t e (inr (h, k)) = ground (
  arith,
  div64_small a b h k,
  rem64_small a b h k,
  lt64_small a b h k,
  lt64_small b a k h,
  le64_small a b h k,
  le64_small b a k h,
)

fold_strings :
    (objects : Objects) (fuel : ℕ) (op : BinaryOp) (a b : Runes) {v : Value}
    → fold_binary op (string a) (string b) ≡ some v
    → eval_binary objects (suc fuel) op (string a) (string b) ≡ ok v
unfolding fold_binary eval_binary
fold_strings objects fuel op a b e = ground arith

fold_bools :
    (objects : Objects) (fuel : ℕ) (op : BinaryOp) (a b : Bool) {v : Value}
    → fold_binary op (bool a) (bool b) ≡ some v
    → eval_binary objects (suc fuel) op (bool a) (bool b) ≡ ok v
unfolding fold_binary eval_binary
fold_bools objects fuel op a b e = ground arith

-- What `foldBinary` folds, `evalBinary` computes to the same value, if the integers agree.
pub fold_binary-eval_binary :
    (objects : Objects) (fuel : ℕ) (op : BinaryOp) (x y : Value) {v : Value}
    → fold_binary op x y ≡ some v
    → IntsAgree x y
    → eval_binary objects (suc fuel) op x y ≡ ok v
unfolding fold_binary
fold_binary-eval_binary objects fuel op (int a s) (int b t) e h =
    fold_ints objects fuel op a b s t e h
fold_binary-eval_binary objects fuel op (string a) (string b) e h =
    fold_strings objects fuel op a b e
fold_binary-eval_binary objects fuel op (bool a) (bool b) e h = fold_bools objects fuel op a b e
fold_binary-eval_binary objects fuel op _ _ e h = ground arith

pick_int_type_idem : (t : String) → pick_int_type t t ≡ t
unfolding pick_int_type
pick_int_type_idem t = ground (arith, eq_iff t "")

-- Two numbers of one unsigned type, the second from 2 ^ 63 on and the first below: `foldBinary`, which
-- compares them as signed, folds `<` to false, and `evalBinary` computes true.
pub fold_binary-lt_unsigned :
    (objects : Objects) (fuel a b : ℕ) (t : String)
    → is_unsigned_int_name t ≡ true
    → a < two63
    → two63 ≤ b
    → (fold_binary lt (int a t) (int b t) ≡ some (bool false))
      × (eval_binary objects fuel lt (int a t) (int b t) ≡ ok (bool true))
unfolding fold_binary eval_binary lt64
fold_binary-lt_unsigned objects fuel a b t u h k =
    (ground arith, ground (arith, pick_int_type_idem t))
