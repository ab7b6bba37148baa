-- ===== src/Typecheck/Clone/Examples.antt =====
-- A generic function and its copy for `i64`.
use dast_lang.Ast.Tree.{
  method_call, Expr, block, cons_stmt, no_stmts, let_stmt, return_stmt, ident, call, no_exprs,
  cons_expr,
}
use dast_lang.Typecheck.Clone.Avoids.{AvoidsTy}
use dast_lang.Base.{
  inr, arith, inl, Bool-cases, sym, if◌then◌else◌, String, true, false, ◌≡◌, refl, none, some, [],
  ◌∷◌,
}
use dast_lang.Typecheck.Clone.Laws.{
  clone_function-AvoidsFunction, clone_function-same, AvoidsFunction,
}
use dast_lang.Typecheck.Clone.Same.{no_subst}
use dast_lang.Typecheck.Clone.Types.{clone_type, type_to_ast, replacement, Subst}
use dast_lang.Typecheck.Clone.TypesAvoid.{Apart}
use dast_lang.Typecheck.Clone.Trees.{clone_expr, clone_function}
use mathlib.Core.Option.{some-injective}
use mathlib.Core.Path.{subst}
use text.Mathlib.Text.{◌==◌ as str_eq}
use text.Mathlib.TextEquality.{eq_iff}
use dast_lang.Ast.Types.{Ty, ty, no_type, some_type, no_types, cons_type}
use dast_lang.Ast.Items.{Function, vis_private}
use dast_lang.Typecheck.Types.{
  CheckedType, checked_type, type_int, no_checked_type, no_checked_types,
}

abbrev named : String → Ty
named n = ty n false false false false no_type no_types no_types

-- fn twice[T](a: &T) -> [T] { let b: T = id[T](a); return b }
abbrev twice : Ty → Ty → Ty → Function
twice arg elem local = record {
  name = "twice";
  type_params = [];
  params = record { name = "a"; type = arg } ∷ [];
  return_type = some_type (ty "" false false true false (some_type elem) no_types no_types);
  body = block (
      cons_stmt
        (let_stmt "b" false (some_type local)
          (call "id" (cons_type local no_types) (cons_expr (ident "a") no_exprs)))
        (cons_stmt (return_stmt (ident "b")) no_stmts));
  vis = vis_private;
  is_macro = false;
}

abbrev generic : Function
generic = twice (ty "T" true false false false no_type no_types no_types) (named "T") (named "T")

abbrev concrete : Function
concrete =
    twice (ty "i64" true false false false no_type no_types no_types) (named "i64") (named "i64")

abbrev int64 : CheckedType
int64 = checked_type type_int false false "i64" no_checked_type no_checked_types no_checked_types

abbrev t_is_int64 : Subst
t_is_int64 = record { types = λ n. if str_eq n "T" then some int64 else none; self_type = none }

t_is_int64-Apart : Apart t_is_int64 (λ n. str_eq n "T")
unfolding replacement type_to_ast
t_is_int64-Apart = record {
  replaced = λ n e.
      (int64, subst (λ z. replacement t_is_int64 z ≡ some int64) (sym ((eq_iff n "T").0 e)) refl);
  avoids = λ n rep e. elim (Bool-cases (str_eq n "Self")) [
    | inl self ↦ absurd (ground arith)
    | inr other ↦ elim (Bool-cases (str_eq n "T")) [
      | inl t ↦
          let at : some int64 ≡ some rep = ground arith in
          subst (λ z. AvoidsTy (λ k. str_eq k "T") (type_to_ast z)) (some-injective _ _ at)
            (refl, tt, tt)
      | inr neither ↦ absurd (ground arith)
    ]
  ];
}

concrete_result : clone_function t_is_int64 generic ≡ concrete
unfolding clone_function clone_expr clone_type replacement type_to_ast
concrete_result = refl

clone_function-AvoidsFunction_example : AvoidsFunction (λ n. str_eq n "T") concrete
unfolding clone_function clone_expr clone_type replacement type_to_ast
clone_function-AvoidsFunction_example =
    clone_function-AvoidsFunction t_is_int64 (λ n. str_eq n "T") generic t_is_int64-Apart
      ((tt, tt), (tt, tt))

clone_function-same_example : clone_function no_subst concrete ≡ concrete
unfolding clone_function clone_expr clone_type replacement type_to_ast
clone_function-same_example = clone_function-same concrete ((tt, tt), (tt, tt))

-- A type parameter before a dot stays, whatever it is replaced by: return T.from_str(s)
abbrev from_str : Expr
from_str = method_call (ident "T") "from_str" (cons_expr (ident "s") no_exprs) "" false ""

receiver_kept : clone_expr t_is_int64 from_str ≡ from_str
unfolding clone_expr
receiver_kept = refl
