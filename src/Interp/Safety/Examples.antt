-- ===== src/Interp/Safety/Examples.antt =====
-- A program with a variable, a reference to it, the built-in functions `push` and `pop`, and an access
-- that is out of bounds, beside a built-in function that panics.
use dast_lang.Interp.Safety.Builtins.{builtin_pop-Safe, builtin_push-Safe}
use dast_lang.Interp.Store.{out_of_bounds, ok, panic, Result, err}
use dast_lang.Interp.Refs.{index_value}
use dast_lang.Interp.Safety.Panics.{empty_store-LiveStore, call_function-not_panic, run-not_panic}
use dast_lang.Interp.Builtins.{builtin_pop, builtin_push}
use dast_lang.Interp.Machine.{set_temp, Store}
use mathlib.Core.Path.{subst}
use dast_lang.Interp.Arith.{eval_binary}
use dast_lang.Interp.Exec.{exec_frame}
use dast_lang.Interp.Safety.Calls.{CheckedFunctions, SafeBuiltins}
use dast_lang.Base.{
  not, Bool, List, ◌≡◌, Runes, [], ◌∷◌, Option, none, some, codes, if◌then◌else◌, true, false, inl,
  inr, refl, arith, Bool-cases, runes_eq,
}
use dast_lang.Ir.Syntax.{
  Value, int, temp, const, call, index, make_array, store_var, load_var, return, Block, Function,
}
use mathlib.Core.Option.{some-injective}
use dast_lang.Interp.Call.{empty_store, call_function, run, Runtime}
use dast_lang.Interp.Safety.Live.{LiveAfter, Safe}

abbrev entry : Block
entry = record {
  label = "entry";
  instr =
      make_array 0 (const (int 1 "i64") ∷ [])
      ∷ store_var "xs" (temp 0) false 0
      ∷ load_var 1 "xs" true false 0
      ∷ call none "push" (temp 1 ∷ const (int 7 "i64") ∷ [])
      ∷ call (some 2) "pop" (temp 1 ∷ [])
      ∷ [];
  term = return (some (temp 2));
}

abbrev main : Function
main = record {
  name = "main";
  params = [];
  return_type = "i64";
  locals = [];
  temp_types = [];
  blocks = entry ∷ [];
  temp_count = 3;
}

-- Reads the element behind the last.
abbrev beyond : Function
beyond = record main {
  blocks =
      record entry {
        instr =
            make_array 0 (const (int 1 "i64") ∷ [])
            ∷ index false 2 (temp 0) (const (int 1 "i64"))
            ∷ [];
      }
      ∷ [];
}

abbrev array_builtins : Runes → Option (List Value → Store → Result (Value × Store))
array_builtins name =
    if runes_eq name (codes "push")
    then some (builtin_push 9)
    else if runes_eq name (codes "pop")
    then some (builtin_pop 9)
    else if runes_eq name (codes "substr")
    then some (λ args s. err panic)
    else none

-- All functions but `substr`.
abbrev callable : Runes → Bool
callable name = not (runes_eq name (codes "substr"))

abbrev runtime : Runtime
runtime = record {
  functions = ("main", main) ∷ ("beyond", beyond) ∷ [];
  entry = "main";
  builtins = array_builtins;
}

runtime-SafeBuiltins : SafeBuiltins callable runtime
runtime-SafeBuiltins name builtin ours e args s live =
    elim (Bool-cases (runes_eq name (codes "push"))) [
      | inl push ↦
          let at : some (builtin_push 9) ≡ some builtin = ground arith in
          subst (λ f. Safe (λ r. LiveAfter s r.1) (f args s)) (some-injective _ _ at)
            (builtin_push-Safe 9 args s live)
      | inr other ↦ elim (Bool-cases (runes_eq name (codes "pop"))) [
        | inl pop ↦
            let at : some (builtin_pop 9) ≡ some builtin = ground arith in
            subst (λ f. Safe (λ r. LiveAfter s r.1) (f args s)) (some-injective _ _ at)
              (builtin_pop-Safe 9 args s live)
        | inr neither ↦ absurd (ground arith)
      ]
    ]

runtime-CheckedFunctions : CheckedFunctions callable runtime.functions
unfolding runes_eq
runtime-CheckedFunctions =
    (((tt, (tt, (tt, (refl, (refl, tt))))), tt), (((tt, (refl, tt)), tt), tt))

abbrev left_store : Result (Value × Store) → Store
left_store (ok (v, s)) = s
left_store (err e) = empty_store

abbrev called : Store
unfolding call_function
called = left_store (call_function runtime 9 (codes "main") [] empty_store)

call_function-not_panic_example :
    ¬ call_function runtime 9 (codes "beyond") [] empty_store ≡ err panic
unfolding runes_eq
call_function-not_panic_example =
    call_function-not_panic callable runtime 9 runtime-SafeBuiltins runtime-CheckedFunctions
      (codes "beyond") [] empty_store refl empty_store-LiveStore

run-not_panic_example : ¬ run runtime 9 "beyond" ≡ err panic
unfolding runes_eq
run-not_panic_example =
    run-not_panic callable runtime 9 "beyond" runtime-SafeBuiltins runtime-CheckedFunctions refl

-- The test that the program reaches its last instructions.
main_result : call_function runtime 9 (codes "main") [] empty_store ≡ ok (int 7 "i64", called)
unfolding call_function exec_frame eval_binary set_temp builtin_push builtin_pop runes_eq
main_result = refl

beyond_result : run runtime 9 "beyond" ≡ err out_of_bounds
unfolding run call_function exec_frame eval_binary set_temp builtin_push builtin_pop runes_eq
    index_value
beyond_result = refl
