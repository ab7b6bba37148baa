-- ===== src/Interp/Safety/Panics.antt =====
-- `Run` and `callFunction` of compiler/stage0/internal/interp/runtime.go, with respect to panics.
use dast_lang.Base.{true, Bool, if◌then◌else◌, arith, ℕ, String, List, ◌≡◌, Runes, [], codes}
use dast_lang.Interp.Store.{panic, err}
use dast_lang.Interp.Call.{call_function, Runtime, empty_store, run}
use dast_lang.Interp.Machine.{Store}
use dast_lang.Interp.Safety.Live.{LiveStore, LiveAfter, err-Safe, if-Safe, not_panic-Safe}
use dast_lang.Interp.Safety.Calls.{SafeBuiltins, CheckedFunctions, call_function-LiveCalls}
use dast_lang.Ir.Syntax.{Value}
use text.Mathlib.Text.{◌==◌ as str_eq}

-- On a live store, one where every reference and every cell in use names a cell that holds a value, a
-- call, however far it gets, does not panic by an index out of range, a nil pointer or a division by
-- zero, provided that every call in the program is by name and of a callable function, that so is this
-- one, that no callable built-in function panics or breaks the store, and that no access to an element
-- is marked as within its bounds. What is not callable may do anything. Memory and the stack are taken
-- to be large enough.
pub call_function-not_panic :
    (callable : Runes → Bool) (rt : Runtime) (fuel : ℕ)
    → SafeBuiltins callable rt
    → CheckedFunctions callable rt.functions
    → (name : Runes) (args : List Value) (s : Store) → callable name ≡ true
    → LiveStore s
    → ¬ call_function rt fuel name args s ≡ err panic
call_function-not_panic callable rt fuel safe checked name args s ours live =
    not_panic-Safe (call_function-LiveCalls callable rt fuel safe checked name args s ours live)

pub empty_store-LiveStore : LiveStore empty_store
empty_store-LiveStore = record {
  cells = λ cell below. absurd (omega (arith, below));
  heap = λ a target e. absurd (ground arith);
}

-- A whole run, from the empty store, however far it gets, does not panic by an index out of range, a nil
-- pointer or a division by zero, under the same conditions on the program, the entry function and the
-- built-in functions.
pub run-not_panic :
    (callable : Runes → Bool) (rt : Runtime) (fuel : ℕ) (entry : String)
    → SafeBuiltins callable rt
    → CheckedFunctions callable rt.functions
    → callable (codes (if str_eq entry "" then rt.entry else entry)) ≡ true
    → ¬ run rt fuel entry ≡ err panic
unfolding run
run-not_panic callable rt fuel entry safe checked ours = not_panic-Safe (
    if-Safe {P = λ r. LiveAfter empty_store r.1}
      (str_eq (if str_eq entry "" then rt.entry else entry) "") (λ _. err-Safe tt)
      (λ _.
        call_function-LiveCalls callable rt fuel safe checked
          (codes (if str_eq entry "" then rt.entry else entry)) [] empty_store ours
          empty_store-LiveStore))
