-- ===== src/Interp/Builtins.antt =====
-- The built-in functions on arrays of compiler/stage0/internal/interp/eval.go: `builtinPush` and
-- `builtinPop`. An array is shared by all that hold its pointer.
use dast_lang.Base.{ℕ, Option, none, some, List, [], ◌∷◌, ◌++◌}
use dast_lang.Interp.Machine.{Store, write_object}
use dast_lang.Interp.Refs.{array_at}
use dast_lang.Interp.Store.{
  array_value, Result, ok, err, ◌>>=◌, type_error, wrong_arity, out_of_bounds,
}
use dast_lang.Ir.Syntax.{Value, unit, ref}

abbrev pub set_elems : ℕ → List Value → Store → Store
set_elems p elems s = write_object p (array_value elems) s

unfoldable pub builtin_push : ℕ → List Value → Store → Result (Value × Store)
unfolding array_at
builtin_push fuel (ref a ∷ v ∷ []) s =
    array_at s fuel (ref a) >>= λ o. ok (unit, set_elems o.0 (o.1 ++ v ∷ []) s)
builtin_push fuel (_ ∷ _ ∷ []) s = err type_error
builtin_push fuel _ s = err wrong_arity

-- The last element and those before it.
abbrev pub split_last : List Value → Option (Value × List Value)
split_last [] = none
split_last (v ∷ elems) = elim (split_last elems) [
  | none ↦ some (v, [])
  | some (last, front) ↦ some (last, v ∷ front)
]

abbrev pub pop_from : ℕ → Store → Option (Value × List Value) → Result (Value × Store)
pop_from p s none = err out_of_bounds
pop_from p s (some (last, front)) = ok (last, set_elems p front s)

unfoldable pub builtin_pop : ℕ → List Value → Store → Result (Value × Store)
unfolding array_at
builtin_pop fuel (ref a ∷ []) s = array_at s fuel (ref a) >>= λ o. pop_from o.0 s (split_last o.1)
builtin_pop fuel (_ ∷ []) s = err type_error
builtin_pop fuel _ s = err wrong_arity
