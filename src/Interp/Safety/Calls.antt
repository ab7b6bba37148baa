-- ===== src/Interp/Safety/Calls.antt =====
-- Blocks, frames and calls of compiler/stage0/internal/interp/runtime.go, with respect to panics and to
-- the invariant.
use dast_lang.Base.{
  true, Bool, length, not, codes, runes_eq, Runes, ℕ, zero, suc, ◌+◌, String, Option, none, some,
  List, [], ◌∷◌, inl, inr, Option-cases, Bool-cases, arith, ◌≡◌, refl, ◌==◌,
}
use dast_lang.Interp.Exec.{Exit, goto, finish, exec_block, exec_frame, branch_on, Calls, exec_term}
use mathlib.Core.Option.{some-injective}
use text.Mathlib.Text.{◌==◌ as str_eq}
use dast_lang.Interp.Store.{err, ok, Result}
use dast_lang.Interp.Call.{
  call_found, bind_param, bind_params, call_blocks, mem_addr, new_frame, Runtime, call_function,
  find_function, free_frame,
}
use dast_lang.Interp.Safety.Live.{
  match-Safe, Safe, Any, bind-Safe, if-Safe, ok-Safe, err-Safe, option-Safe, LiveStore, LiveAfter,
  LiveMachine,
}
use dast_lang.Interp.Machine.{put_temp, Machine, Frame, Store}
use dast_lang.Interp.Safety.Changes.{new_var-LiveStep, put_temp-LiveStep, LiveStep}
use mathlib.Core.Path.{subst}
use dast_lang.Interp.Safety.Operands.{eval_operand-Safe}
use dast_lang.Interp.Safety.Steps.{exec_instrs-Safe, AllChecked, LiveCalls}
use dast_lang.Ir.Syntax.{Term, Var, Block, Function, Value, jump, branch, return, no_term, bool}
use dast_lang.Ir.Prune.{find_block}

abbrev pub CheckedBlocks : (Runes → Bool) → List Block → Type 0
CheckedBlocks callable [] = Unit
CheckedBlocks callable (blk ∷ blocks) =
    AllChecked callable blk.instr × CheckedBlocks callable blocks

-- No instruction of the program is an access that a pass has marked as within its bounds, or a call of
-- a closure, and every call is one of a callable function.
abbrev pub CheckedFunctions : (Runes → Bool) → List (String × Function) → Type 0
CheckedFunctions callable [] = Unit
CheckedFunctions callable ((name, fn) ∷ fns) =
    CheckedBlocks callable fn.blocks × CheckedFunctions callable fns

-- Every callable built-in function keeps a live store live and does not panic.
abbrev pub SafeBuiltins : (Runes → Bool) → Runtime → Type 0
SafeBuiltins callable rt =
    (name : Runes) (builtin : List Value → Store → Result (Value × Store))
    → callable name ≡ true
    → rt.builtins name ≡ some builtin
    → (args : List Value) (s : Store) → LiveStore s
    → Safe (λ r. LiveAfter s r.1) (builtin args s)

find_block-Checked :
    (callable : Runes → Bool) (label : String) (blocks : List Block) (blk : Block)
    → CheckedBlocks callable blocks
    → find_block label blocks ≡ some blk
    → AllChecked callable blk.instr
unfolding find_block
find_block-Checked callable label [] blk checked e = absurd (ground arith)
find_block-Checked callable label (b ∷ blocks) blk checked e =
    elim (Option-cases (find_block label blocks)) [
      | inr (later, l) ↦ find_block-Checked callable label blocks blk checked.1 (ground arith)
      | inl n ↦ elim (Bool-cases (str_eq b.label label)) [
        | inl same ↦
            let at : some b ≡ some blk = ground arith in
            subst (λ z. AllChecked callable z.instr) (some-injective _ _ at) checked.0
        | inr other ↦ absurd (ground arith)
      ]
    ]

find_function-Checked :
    (callable : Runes → Bool) (name : Runes) (fns : List (String × Function)) (fn : Function)
    → CheckedFunctions callable fns
    → find_function name fns ≡ some fn
    → CheckedBlocks callable fn.blocks
unfolding find_function
find_function-Checked callable name [] fn checked e = absurd (ground arith)
find_function-Checked callable name ((key, g) ∷ fns) fn checked e =
    elim (Bool-cases (runes_eq (codes key) name)) [
      | inl same ↦
          let at : some g ≡ some fn = ground arith in
          subst (λ z. CheckedBlocks callable z.blocks) (some-injective _ _ at) checked.0
      | inr other ↦ find_function-Checked callable name fns fn checked.1 (ground arith)
    ]

branch_on-Safe : (v : Value) (l l' : String) → Safe Any (branch_on v l l')
branch_on-Safe (bool b) l l' = ok-Safe tt
branch_on-Safe _ l l' = record { outcome = tt }

exec_term-Safe : (term : Term) (m : Machine) → Safe Any (exec_term term m)
unfolding exec_term
exec_term-Safe no_term m = ok-Safe tt
exec_term-Safe (jump target) m = ok-Safe tt
exec_term-Safe (branch cond l l') m =
    bind-Safe (eval_operand-Safe m cond) (λ v _. branch_on-Safe v l l')
exec_term-Safe (return none) m = ok-Safe tt
exec_term-Safe (return (some op)) m = bind-Safe (eval_operand-Safe m op) (λ v _. ok-Safe tt)

later_frame-Safe :
    (s : Store) (m : Machine) (r : Result (Machine × Value))
    → LiveStep s m
    → Safe (λ x. LiveStep m.store x.0) r
    → Safe (λ x. LiveStep s x.0) r
later_frame-Safe s m (ok n) step safe =
    ok-Safe (safe.outcome.0, omega (arith, step.1, safe.outcome.1))
later_frame-Safe s m (err e) step safe = err-Safe safe.outcome

exit-Safe :
    {P : Machine × Value → Type 0} {f : String → Result (Machine × Value)} (m : Machine)
    (exit : Exit)
    → ((v : Value) → P (m, v))
    → ((label : String) → Safe P (f label))
    → Safe P (elim exit [ finish v ↦ ok (m, v) | goto label ↦ f label ])
exit-Safe m (finish v) finished on = ok-Safe (finished v)
exit-Safe m (goto label) finished on = on label

module _ (callable : Runes → Bool) (calls : Calls) (safe : LiveCalls callable calls)
    (fuel : ℕ) where
  exec_block-Safe :
      (blk : Block) (m : Machine)
      → AllChecked callable blk.instr
      → LiveMachine m
      → Safe (λ r. LiveStep m.store r.0) (exec_block calls fuel blk m)
  unfolding exec_block
  exec_block-Safe blk m checked live =
      bind-Safe (exec_instrs-Safe callable calls safe fuel blk.instr m checked live)
        (λ n step. bind-Safe (exec_term-Safe blk.term n) (λ e _. ok-Safe step))

  exec_frame-Safe :
      (blocks : List Block) (rounds : ℕ) (blk : Block) (m : Machine)
      → CheckedBlocks callable blocks
      → AllChecked callable blk.instr
      → LiveMachine m
      → Safe (λ r. LiveStep m.store r.0) (exec_frame calls fuel blocks rounds blk m)
  unfolding exec_frame
  exec_frame-Safe blocks zero blk m all checked live = err-Safe tt
  exec_frame-Safe blocks (suc rounds) blk m all checked live =
      match-Safe (exec_block-Safe blk m checked live) (λ r step.
        exit-Safe r.0 r.1 (λ _. step)
          (λ label.
            option-Safe (find_block label blocks) (λ _. err-Safe tt)
              (λ next there. later_frame-Safe m.store r.0 _ step (
                exec_frame-Safe blocks rounds next r.0 all
                  (find_block-Checked callable label blocks next all there) step.0))))

-- The parameters of a call take new cells.
bind_params-LiveStep :
    (s : Store) (i : ℕ) (params : List Var) (args : List Value) (m : Machine)
    → LiveStep s m
    → LiveStep s (bind_params i params args m)
bind_params-LiveStep s i [] args m step = step
bind_params-LiveStep s i (p ∷ params) [] m step = step
bind_params-LiveStep s i (p ∷ params) (v ∷ args) m step =
    let (live, le) = put_temp-LiveStep s i v m step in
    let (live', le') = new_var-LiveStep p.name v (put_temp i v m) live in
    bind_params-LiveStep s (i + 1) params args (bind_param i p.name v m)
      (live', omega (arith, le, le'))

new_frame-LiveStep :
    (fn : Function) (s : Store)
    → LiveStore s
    → LiveStep s (record { frame = new_frame fn; store = s })
new_frame-LiveStep fn s live =
    (record { store = live; vars = λ x cell e. absurd (ground arith) }, omega arith)

-- `freeFrame` takes references out of the heap.
free_frame-LiveAfter : (fr : Frame) (s : Store) → LiveStore s → LiveAfter s (free_frame fr s)
unfolding free_frame
free_frame-LiveAfter fr s live = (
  record {
    cells = live.cells;
    heap = λ a target e. elim (Bool-cases (mem_addr a fr.var_addrs)) [
      | inl freed ↦ absurd (ground arith)
      | inr kept ↦ live.heap a target (ground arith)
    ];
  },
  omega arith,
)

call_blocks-Safe :
    (callable : Runes → Bool) (calls : Calls) (fuel : ℕ) (fn : Function) (args : List Value)
    (s : Store) (blocks : List Block)
    → LiveCalls callable calls
    → CheckedBlocks callable blocks
    → LiveStore s
    → Safe (λ r. LiveAfter s r.1) (call_blocks calls fuel fn args s blocks)
unfolding free_frame
call_blocks-Safe callable calls fuel fn args s [] safe checked live = ok-Safe (live, omega arith)
call_blocks-Safe callable calls fuel fn args s (entry ∷ blocks) safe checked live =
    let m = bind_params 0 fn.params args (record { frame = new_frame fn; store = s }) in
    let (live', le) =
      bind_params-LiveStep s 0 fn.params args (record { frame = new_frame fn; store = s })
        (new_frame-LiveStep fn s live) in
    bind-Safe
      (exec_frame-Safe callable calls safe fuel (entry ∷ blocks) fuel entry m checked checked.0
        live')
      (λ r step.
        let (after, le') = free_frame-LiveAfter r.0.frame r.0.store step.0.store in
        ok-Safe (after, omega (arith, le, le', step.1)))

call_found-Safe :
    (callable : Runes → Bool) (calls : Calls) (fuel : ℕ) (args : List Value) (s : Store)
    (found_fn : Option Function)
    → LiveCalls callable calls
    → ((fn : Function) → found_fn ≡ some fn → CheckedBlocks callable fn.blocks)
    → LiveStore s
    → Safe (λ r. LiveAfter s r.1) (call_found calls fuel args s found_fn)
unfolding free_frame
call_found-Safe callable calls fuel args s none safe checked live = err-Safe tt
call_found-Safe callable calls fuel args s (some fn) safe checked live =
    if-Safe (not (length args == length fn.params)) (λ _. err-Safe tt)
      (λ _. call_blocks-Safe callable calls fuel fn args s fn.blocks safe (checked fn refl) live)

-- The invariant of calls: from a live store a call does not panic and leaves a live store with at
-- least the same cells.
pub call_function-LiveCalls :
    (callable : Runes → Bool) (rt : Runtime) (fuel : ℕ)
    → SafeBuiltins callable rt
    → CheckedFunctions callable rt.functions
    → LiveCalls callable (call_function rt fuel)
unfolding call_function
call_function-LiveCalls callable rt zero safe checked name args s ours live = err-Safe tt
call_function-LiveCalls callable rt (suc fuel) safe checked name args s ours live =
    option-Safe (rt.builtins name)
      (λ _.
        call_found-Safe callable (call_function rt fuel) fuel args s
          (find_function name rt.functions) (call_function-LiveCalls callable rt fuel safe checked)
          (λ fn. find_function-Checked callable name rt.functions fn checked) live)
      (λ builtin e. safe name builtin ours e args s live)
