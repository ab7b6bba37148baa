-- ===== src/Typecheck/ConstEval/OpsAgree.antt =====
-- The operators on constants (compiler/stage0/internal/typecheck/const_eval.go) against those of the
-- interpreter (compiler/stage0/internal/interp/eval.go).
use dast_lang.Base.{
  inr, inl, Bool-cases, if◌then◌else◌, leb, ℕ, suc, Bool, true, false, Option, none, some, ◌≡◌,
  refl, ap, arith, ◌<◌, ltb, ◌==◌, runes_eq,
}
use dast_lang.Ir.Fold.{bool_eq}
use dast_lang.Typecheck.ConstEval.Ops.{
  same_or_not, promote_float, const_equality_binary, compare_ints, const_int_op,
  const_compare_binary, const_int_binary, const_numeric_binary,
}
use dast_lang.Interp.Store.{◌>>=◌, err, ok, Error, Objects, Result}
use dast_lang.Interp.Arith.{
  values_equal, pick_int_type, on_ints, is_unsigned_int_name, eval_ints, negate_if,
}
use dast_lang.Typecheck.ConstEval.Lowered.{value_of, NoFloat}
use dast_lang.Typecheck.ConstEval.Floats.{Floats}
use dast_lang.Base.Int64.{lt64, le64, two63, is_negative}
use dast_lang.Ast.Values.{ConstValue, const_int, const_bool, const_string, const_char, const_float}
use dast_lang.Ir.Syntax.{
  Value, bool, BinaryOp, add, sub, mul, div, rem, eq, lt, le, gt, ge, bit_and, bit_or, bit_xor, shl,
  shr,
}

-- The interpreter computes the constant too, which is no float.
abbrev pub Agrees : Result Value → Option ConstValue → Type 0
Agrees r none = Unit
Agrees r (some c) = (r ≡ ok (value_of c)) × NoFloat c

if_none-Agrees :
    (b : Bool) (e : Error) (v : Value) (c : ConstValue)
    → v ≡ value_of c
    → NoFloat c
    → Agrees (if b then err e else ok v) (if b then none else some c)
if_none-Agrees true e v c same plain = tt
if_none-Agrees false e v c same plain = (ap ok same, plain)

const_int_op-Agrees : (op : BinaryOp) (a b : ℕ) → Agrees (eval_ints op "" a b) (const_int_op op a b)
unfolding eval_ints is_unsigned_int_name
const_int_op-Agrees add a b = (refl, tt)
const_int_op-Agrees sub a b = (refl, tt)
const_int_op-Agrees mul a b = (refl, tt)
const_int_op-Agrees div a b = elim (Bool-cases (b == 0)) [
  | inl e ↦ rw e tt
  | inr e ↦ rw e (refl, tt)
]
const_int_op-Agrees rem a b = elim (Bool-cases (b == 0)) [
  | inl e ↦ rw e tt
  | inr e ↦ rw e (refl, tt)
]
const_int_op-Agrees bit_and a b = (refl, tt)
const_int_op-Agrees bit_or a b = (refl, tt)
const_int_op-Agrees bit_xor a b = (refl, tt)
const_int_op-Agrees shl a b = if_none-Agrees (is_negative b) _ _ _ refl tt
const_int_op-Agrees shr a b = if_none-Agrees (is_negative b) _ _ _ refl tt
const_int_op-Agrees _ a b = tt

compare_ints-Agrees : (op : BinaryOp) (a b : ℕ) → Agrees (eval_ints op "" a b) (compare_ints op a b)
unfolding eval_ints is_unsigned_int_name
compare_ints-Agrees lt a b = (refl, tt)
compare_ints-Agrees le a b = (refl, tt)
compare_ints-Agrees gt a b = (refl, tt)
compare_ints-Agrees ge a b = (refl, tt)
compare_ints-Agrees _ a b = tt

ltb-lt64 : (a b : ℕ) → a < two63 → b < two63 → ltb a b ≡ lt64 a b
unfolding lt64
ltb-lt64 a b la lb = ground arith

leb-le64 : (a b : ℕ) → a < two63 → b < two63 → leb a b ≡ le64 a b
unfolding le64
leb-le64 a b la lb = ground arith

-- On characters the interpreter compares without a sign.
compare_chars-Agrees :
    (op : BinaryOp) (a b : ℕ)
    → a < two63
    → b < two63
    → Agrees (eval_ints op "char" a b) (compare_ints op a b)
unfolding eval_ints is_unsigned_int_name
compare_chars-Agrees lt a b la lb = (ap (λ x. ok (bool x)) (ltb-lt64 a b la lb), tt)
compare_chars-Agrees le a b la lb = (ap (λ x. ok (bool x)) (leb-le64 a b la lb), tt)
compare_chars-Agrees gt a b la lb = (ap (λ x. ok (bool x)) (ltb-lt64 b a lb la), tt)
compare_chars-Agrees ge a b la lb = (ap (λ x. ok (bool x)) (leb-le64 b a lb la), tt)
compare_chars-Agrees _ a b la lb = tt

-- Any operator but `==` is read as `!=`.
abbrev pub is_ne : BinaryOp → Bool
is_ne eq = false
is_ne _ = true

same_or_not-Agrees :
    (op : BinaryOp) (b : Bool) → Agrees (ok (negate_if (is_ne op) b)) (same_or_not op b)
same_or_not-Agrees eq b = (refl, tt)
same_or_not-Agrees _ b = (refl, tt)

module _ (objects : Objects) (fuel : ℕ) (fl : Floats) where
  pub const_int_binary-Agrees :
      (op : BinaryOp) (a b : ConstValue)
      → Agrees (on_ints op (value_of a) (value_of b)) (const_int_binary op a b)
  unfolding const_int_binary pick_int_type promote_float
  const_int_binary-Agrees op (const_int a) (const_int b) = const_int_op-Agrees op a b
  const_int_binary-Agrees op _ _ = tt

  pub const_numeric_binary-Agrees :
      (op : BinaryOp) (a b : ConstValue)
      → NoFloat a
      → NoFloat b
      → Agrees (on_ints op (value_of a) (value_of b)) (const_numeric_binary fl op a b)
  unfolding const_numeric_binary pick_int_type promote_float
  const_numeric_binary-Agrees op (const_int a) (const_int b) p q = const_int_op-Agrees op a b
  const_numeric_binary-Agrees op (const_float a) b p q = absurd p
  const_numeric_binary-Agrees op a (const_float b) p q = absurd q
  const_numeric_binary-Agrees op _ _ p q = tt

  pub const_compare_binary-Agrees :
      (op : BinaryOp) (a b : ConstValue)
      → NoFloat a
      → NoFloat b
      → Agrees (on_ints op (value_of a) (value_of b)) (const_compare_binary fl op a b)
  unfolding const_compare_binary pick_int_type promote_float
  const_compare_binary-Agrees op (const_int a) (const_int b) p q = compare_ints-Agrees op a b
  const_compare_binary-Agrees op (const_char a) (const_char b) p q = compare_chars-Agrees op a b p q
  const_compare_binary-Agrees op (const_float a) b p q = absurd p
  const_compare_binary-Agrees op a (const_float b) p q = absurd q
  const_compare_binary-Agrees op _ _ p q = tt

  pub values_equal-Agrees :
      (op : BinaryOp) (a b : ConstValue)
      → NoFloat a
      → NoFloat b
      → Agrees
          (values_equal objects (suc fuel) (value_of a) (value_of b) >>= λ e.
            ok (negate_if (is_ne op) e))
          (const_equality_binary fl op a b)
  unfolding const_equality_binary values_equal promote_float
  values_equal-Agrees op (const_string a) (const_string b) p q =
      same_or_not-Agrees op (runes_eq a b)
  values_equal-Agrees op (const_bool a) (const_bool b) p q = same_or_not-Agrees op (bool_eq a b)
  values_equal-Agrees op (const_char a) (const_char b) p q = same_or_not-Agrees op (a == b)
  values_equal-Agrees op (const_int a) (const_int b) p q = same_or_not-Agrees op (a == b)
  values_equal-Agrees op (const_float a) b p q = absurd p
  values_equal-Agrees op a (const_float b) p q = absurd q
  values_equal-Agrees op _ _ p q = tt
