-- ===== src/Ir/Fold.antt =====
-- `foldBinary` and `mergeIntType` of compiler/stage0/internal/ir/opt.go. A clause stands for a case of
-- the switch with the kinds of its test.
use text.Mathlib.Text.{◌==◌ as str_eq}
use dast_lang.Base.{
  String, Bool, true, false, not, ◌&&◌, ◌||◌, Option, none, some, ◌++◌, ◌==◌, if◌then◌else◌,
  runes_eq,
}
use dast_lang.Base.Int64.{add64, sub64, mul64, div64, rem64, lt64, le64}
use dast_lang.Ir.Syntax.{
  Value, int, bool, string, BinaryOp, add, sub, mul, div, rem, eq, ne, lt, le, gt, ge, and, or,
}

-- Go's `==` on booleans.
abbrev pub bool_eq : Bool → Bool → Bool
bool_eq true b = b
bool_eq false b = not b

-- On the types' names: the first that is not empty.
unfoldable pub merge_int_type : String → String → String
merge_int_type a b = if not (str_eq a "") then a else if not (str_eq b "") then b else ""

unfoldable pub fold_binary : BinaryOp → Value → Value → Option Value
unfolding merge_int_type
fold_binary add (int a s) (int b t) = some (int (add64 a b) (merge_int_type s t))
fold_binary add (string a) (string b) = some (string (a ++ b))
fold_binary sub (int a s) (int b t) = some (int (sub64 a b) (merge_int_type s t))
fold_binary mul (int a s) (int b t) = some (int (mul64 a b) (merge_int_type s t))
fold_binary div (int a s) (int b t) =
    if not (b == 0) then some (int (div64 a b) (merge_int_type s t)) else none
fold_binary rem (int a s) (int b t) =
    if not (b == 0) then some (int (rem64 a b) (merge_int_type s t)) else none
fold_binary eq (int a s) (int b t) = some (bool (a == b))
fold_binary eq (bool a) (bool b) = some (bool (bool_eq a b))
fold_binary eq (string a) (string b) = some (bool (runes_eq a b))
fold_binary ne (int a s) (int b t) = some (bool (not (a == b)))
fold_binary ne (bool a) (bool b) = some (bool (not (bool_eq a b)))
fold_binary ne (string a) (string b) = some (bool (not (runes_eq a b)))
fold_binary lt (int a s) (int b t) = some (bool (lt64 a b))
fold_binary le (int a s) (int b t) = some (bool (le64 a b))
fold_binary gt (int a s) (int b t) = some (bool (lt64 b a))
fold_binary ge (int a s) (int b t) = some (bool (le64 b a))
fold_binary and (bool a) (bool b) = some (bool (a && b))
fold_binary or (bool a) (bool b) = some (bool (a || b))
fold_binary _ _ _ = none
