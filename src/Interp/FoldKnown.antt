-- ===== src/Interp/FoldKnown.antt =====
-- A folded operator of `optimizeBlock` (compiler/stage0/internal/ir/opt.go) whose operands are known,
-- against `evalBinary` (compiler/stage0/internal/interp/eval.go) on the operands' values.
use dast_lang.Base.{
  Bool-cases, inl, inr, Option-cases, suc, ◌∙◌, sym, arith, ap, false, some, String, ◌≡◌, ℕ,
}
use dast_lang.Ir.Syntax.{int, BinaryOp, temp, const, Operand, Value}
use dast_lang.Interp.Arith.{pick_int_type, is_unsigned_int_name, eval_binary}
use dast_lang.Ir.Fold.{merge_int_type, fold_binary}
use text.Mathlib.Text.{◌==◌ as str_eq}
use text.Mathlib.TextEquality.{eq_iff}
use dast_lang.Interp.FoldAgrees.{fold_binary-eval_binary, IntsAgree}
use dast_lang.Interp.Machine.{eval_operand, Machine}
use dast_lang.Ir.BlockPass.{fold_operands, operand_const, Consts}
use dast_lang.Interp.ConstsHold.{Signed, SignedOperand, ConstsHold, ok-injective}
use mathlib.Core.Path.{subst}
use dast_lang.Interp.Store.{ok}
use mathlib.Core.Option.{some-injective}

pub operand_const-eval_operand :
    {c : Consts} {m : Machine} (op : Operand) (v : Value)
    → ConstsHold c m
    → SignedOperand op
    → operand_const c op ≡ some v
    → (eval_operand m op ≡ ok v) × Signed v
operand_const-eval_operand (const w) v h signed e =
    (ap ok (some-injective _ _ e), subst Signed (some-injective _ _ e) signed)
operand_const-eval_operand (temp t) v h signed e = h.temps t v e

Signed-merged :
    (s t : String)
    → is_unsigned_int_name s ≡ false
    → is_unsigned_int_name t ≡ false
    → is_unsigned_int_name (merge_int_type s t) ≡ false
unfolding merge_int_type
Signed-merged s t h k = elim (Bool-cases (str_eq s "")) [
  | inl e ↦ elim (Bool-cases (str_eq t "")) [
    | inl f ↦
        rw (e, f) (subst (λ z. is_unsigned_int_name z ≡ false) (ground (arith, eq_iff t "")) k)
    | inr f ↦ rw (e, f) k
  ]
  | inr e ↦ rw e h
]

Signed-IntsAgree : (x y : Value) → Signed x → Signed y → IntsAgree x y
unfolding pick_int_type merge_int_type
Signed-IntsAgree (int a s) (int b t) h k = inl (Signed-merged s t h k)
Signed-IntsAgree _ _ h k = tt

-- A folded integer takes the merged type of the operands.
fold_ints-type :
    (op : BinaryOp) (a b n : ℕ) (s t z : String)
    → fold_binary op (int a s) (int b t) ≡ some (int n z)
    → merge_int_type s t ≡ z
unfolding fold_binary
fold_ints-type op a b n s t z e = ground arith

fold_binary-Signed :
    (op : BinaryOp) (x y : Value) {w : Value}
    → Signed x
    → Signed y
    → fold_binary op x y ≡ some w
    → Signed w
unfolding fold_binary merge_int_type
fold_binary-Signed op (int a s) (int b t) {w = int n z} h k e =
    subst (λ y. is_unsigned_int_name y ≡ false) (fold_ints-type op a b n s t z e)
      (Signed-merged s t h k)
fold_binary-Signed op (int a s) (int b t) h k e = tt
fold_binary-Signed op _ _ h k e = ground arith

-- The constant noted for the result is what the operator computes.
pub bin_op_known :
    {c : Consts} {m : Machine} (fuel : ℕ) (op : BinaryOp) (lhs rhs : Operand) {l r v w : Value}
    → ConstsHold c m
    → SignedOperand lhs × SignedOperand rhs
    → eval_operand m lhs ≡ ok l
    → eval_operand m rhs ≡ ok r
    → eval_binary m.store.objects (suc fuel) op l r ≡ ok v
    → fold_operands op (operand_const c lhs) (operand_const c rhs) ≡ some w
    → (v ≡ w) × Signed w
bin_op_known {c = c} {m = m} fuel op lhs rhs {l = l} {r = r} {v = v} {w = w} h signed g g' g'' f =
    elim (Option-cases (operand_const c lhs)) [
      | inl n ↦ absurd (ground arith)
      | inr (x, n) ↦ elim (Option-cases (operand_const c rhs)) [
        | inl n' ↦ absurd (ground arith)
        | inr (y, n') ↦
            let (el, sl) = operand_const-eval_operand lhs x h signed.0 n in
            let (er, sr) = operand_const-eval_operand rhs y h signed.1 n' in
            let folded : fold_binary op x y ≡ some w = ground arith in
            let l_x : x ≡ l = ok-injective (sym el ∙ g) in
            let r_y : y ≡ r = ok-injective (sym er ∙ g') in
            let computed =
              fold_binary-eval_binary m.store.objects fuel op x y folded
                (Signed-IntsAgree x y sl sr) in
            (cc, fold_binary-Signed op x y sl sr folded)
      ]
    ]
