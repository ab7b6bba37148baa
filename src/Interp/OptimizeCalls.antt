-- ===== src/Interp/OptimizeCalls.antt =====
-- The pass of `optimizeBlock` (compiler/stage0/internal/ir/opt.go) over all functions of a program
-- against `callFunction` (compiler/stage0/internal/interp/runtime.go).
use mathlib.Core.Option.{some-injective}
use mathlib.Core.Path.{subst}
use dast_lang.Base.{
  runes_eq, ◌≤◌, ap, inr, inl, Option-cases, Bool-cases, ◌∷◌, All, [], suc, zero, ◌∙◌, arith, some,
  String, ◌≡◌, List, ℕ, Runes, codes, not, length, ◌==◌,
}
use dast_lang.Interp.Call.{
  Runtime, call_function, call_body, call_blocks, bind_params, new_frame, leave, find_function,
}
use dast_lang.Interp.CallsGrow.{call_function-CallsGrow}
use dast_lang.Interp.ConstsHold.{bind-ok}
use dast_lang.Interp.ConstsSound.{CallsGrow}
use dast_lang.Interp.Exec.{
  Calls, exec_instr, exec_instrs, exec_block, exec_frame, goto, finish, Exit, closure_of,
}
use dast_lang.Interp.FreshCells.{bind_params-OwnsCells, new_frame-OwnsCells}
use dast_lang.Interp.Machine.{Machine, Store, eval_operand, eval_operands}
use dast_lang.Interp.OptimizeSound.{optimize_blocks-exec_frame, TrackedBlock}
use dast_lang.Interp.PruneSound.{Result-cases}
use dast_lang.Interp.Refs.{struct_of}
use dast_lang.Interp.Store.{Result, ok, ◌>>=◌}
use dast_lang.Ir.BlockPass.{optimize_blocks}
use dast_lang.Ir.Prune.{find_block}
use dast_lang.Ir.Syntax.{Value, Instr, call, call_closure, Block, Function}

-- What the one call returns the other returns.
abbrev Refines : Calls → Calls → Type 0
Refines calls' calls =
    (name : Runes) (args : List Value) (s : Store) (res : Value × Store)
    → calls name args s ≡ ok res
    → calls' name args s ≡ ok res

module _ (calls calls' : Calls) (refines : Refines calls' calls) (fuel : ℕ) where
  exec_instr-Refines :
      (inst : Instr) (m : Machine) {m' : Machine}
      → exec_instr calls fuel inst m ≡ ok m'
      → exec_instr calls' fuel inst m ≡ ok m'
  unfolding exec_instr
  exec_instr-Refines (call dst callee args) m e =
      let (vs, g, k) = bind-ok (eval_operands m args) _ e in
      let (res, g', k') = bind-ok (calls (codes callee) vs m.store) _ k in
      rw (g, refines (codes callee) vs m.store res g') k'
  exec_instr-Refines (call_closure dst closure args) m e =
      let (c, g, k) = bind-ok (eval_operand m closure) _ e in
      let (o, g1, k1) = bind-ok (struct_of m.store c) _ k in
      let (f, g2, k2) = bind-ok (closure_of o) _ k1 in
      let (vs, g3, k3) = bind-ok (eval_operands m args) _ k2 in
      let (res, g4, k4) = bind-ok (calls f.0 (f.1 ∷ vs) m.store) _ k3 in
      rw (g, g1, g2, g3, refines f.0 (f.1 ∷ vs) m.store res g4) k4
  exec_instr-Refines _ m e = e

  exec_instrs-Refines :
      (instrs : List Instr) (m : Machine) {m' : Machine}
      → exec_instrs calls fuel instrs m ≡ ok m'
      → exec_instrs calls' fuel instrs m ≡ ok m'
  unfolding exec_instrs
  exec_instrs-Refines [] m e = e
  exec_instrs-Refines (inst ∷ instrs) m e =
      let (n, g, k) = bind-ok (exec_instr calls fuel inst m) _ e in
      rw (exec_instr-Refines inst m g) (exec_instrs-Refines instrs n k)

  exec_block-Refines :
      (blk : Block) (m : Machine) {res : Machine × Exit}
      → exec_block calls fuel blk m ≡ ok res
      → exec_block calls' fuel blk m ≡ ok res
  unfolding exec_block
  exec_block-Refines blk m e =
      let (n, g, k) = bind-ok (exec_instrs calls fuel blk.instr m) _ e in
      rw (exec_instrs-Refines blk.instr m g) k

  exec_frame-Refines :
      (blocks : List Block) (rounds : ℕ) (blk : Block) (m : Machine) {res : Machine × Value}
      → exec_frame calls fuel blocks rounds blk m ≡ ok res
      → exec_frame calls' fuel blocks rounds blk m ≡ ok res
  unfolding exec_frame
  exec_frame-Refines blocks zero blk m e = absurd (ground arith)
  exec_frame-Refines blocks (suc rounds) blk m e =
      elim (Result-cases (exec_block calls fuel blk m)) [
        | inr (x, h) ↦ absurd (ground arith)
        | inl ((n, finish v), h) ↦ rw (exec_block-Refines blk m h, exec_frame) (ground arith)
        | inl ((n, goto label), h) ↦ elim (Option-cases (find_block label blocks)) [
          | inl b ↦ absurd (ground arith)
          | inr (next, b) ↦
              rw (exec_block-Refines blk m h, b, exec_frame)
                (exec_frame-Refines blocks rounds next n (ground arith))
        ]
      ]

abbrev pub TrackedProgram : List (String × Function) → Type 0
TrackedProgram [] = Unit
TrackedProgram ((name, fn) ∷ fns) = All TrackedBlock fn.blocks × TrackedProgram fns

abbrev pub blocks_optimized : Function → Function
blocks_optimized fn = record fn { blocks = optimize_blocks fn.blocks }

-- The program with the pass over all blocks of all functions.
abbrev pub program_optimized : List (String × Function) → List (String × Function)
program_optimized [] = []
program_optimized ((name, fn) ∷ fns) = (name, blocks_optimized fn) ∷ program_optimized fns

find_function-optimized :
    (name : Runes) (fns : List (String × Function)) (fn : Function)
    → TrackedProgram fns
    → find_function name fns ≡ some fn
    → (find_function name (program_optimized fns) ≡ some (blocks_optimized fn))
      × All TrackedBlock fn.blocks
unfolding find_function
find_function-optimized name [] fn tracked e = absurd (ground arith)
find_function-optimized name ((key, f) ∷ fns) fn tracked e =
    elim (Bool-cases (runes_eq (codes key) name)) [
      | inl t ↦
          let same : some f ≡ some fn = ground arith in
          (
            rw t (ap (λ g. some (blocks_optimized g)) (some-injective _ _ same)),
            subst (λ g. All TrackedBlock g.blocks) (some-injective _ _ same) tracked.0,
          )
      | inr n ↦
          let (found, all) = find_function-optimized name fns fn tracked.1 (ground arith) in
          (rw n found, all)
    ]

call_blocks-optimized :
    (calls calls' : Calls) (fuel : ℕ) (fn : Function) (args : List Value) (s : Store)
    (res : Value × Store) (blocks : List Block)
    → Refines calls' calls
    → CallsGrow calls'
    → All TrackedBlock blocks
    → call_blocks calls fuel fn args s blocks ≡ ok res
    → call_blocks calls' fuel (blocks_optimized fn) args s (optimize_blocks blocks) ≡ ok res
unfolding exec_frame
call_blocks-optimized calls calls' fuel fn args s res [] refines grow tracked e = e
call_blocks-optimized calls calls' zero fn args s res (entry ∷ blocks) refines grow tracked e =
    absurd (ground arith)
call_blocks-optimized calls calls' (suc fuel) fn args s res (entry ∷ blocks) refines grow tracked
      e =
    let m = bind_params 0 fn.params args (record { frame = new_frame fn; store = s }) in
    let owns = bind_params-OwnsCells 0 fn.params args _ (new_frame-OwnsCells fn s) in
    let (r, g, k) = bind-ok (exec_frame calls (suc fuel) (entry ∷ blocks) (suc fuel) entry m) _ e in
    let refined =
      exec_frame-Refines calls calls' refines (suc fuel) (entry ∷ blocks) (suc fuel) entry m g in
    ap (λ x. x >>= leave)
      (optimize_blocks-exec_frame calls' fuel (suc fuel) (entry ∷ blocks) entry m r grow owns
        tracked.0 tracked refined)
    ∙ k

call_body-optimized :
    (calls calls' : Calls) (fuel : ℕ) (fn : Function) (args : List Value) (s : Store)
    (res : Value × Store)
    → Refines calls' calls
    → CallsGrow calls'
    → All TrackedBlock fn.blocks
    → call_body calls fuel fn args s ≡ ok res
    → call_body calls' fuel (blocks_optimized fn) args s ≡ ok res
call_body-optimized calls calls' fuel fn args s res refines grow tracked e =
    elim (Bool-cases (not (length args == length fn.params))) [
      | inl t ↦ absurd (ground arith)
      | inr f ↦ rw f (
          call_blocks-optimized calls calls' fuel fn args s res fn.blocks refines grow tracked
            (ground arith))
    ]

-- What a call returns it returns, with the same store, in the program whose blocks have all gone
-- through the pass, whatever the fuel, the arguments and the store, provided that the integer
-- constants of the program have no unsigned type, that the program has no call of a closure and takes
-- no address of a field or an element, and that the built-in functions give no cell back.
pub optimize_blocks-call_function :
    (fns : List (String × Function)) (rt : Runtime)
    → TrackedProgram fns
    → ((name : Runes) (builtin : List Value → Store → Result (Value × Store)) (args : List Value)
          (s s' : Store) (v : Value)
        → rt.builtins name ≡ some builtin
        → builtin args s ≡ ok (v, s')
        → s.next_cell ≤ s'.next_cell)
    → (fuel : ℕ) (name : Runes) (args : List Value) (s : Store) (res : Value × Store)
    → call_function (record rt { functions = fns }) fuel name args s ≡ ok res
    → call_function (record rt { functions = program_optimized fns }) fuel name args s ≡ ok res
unfolding call_function
optimize_blocks-call_function fns rt tracked grow zero name args s res e = absurd (ground arith)
optimize_blocks-call_function fns rt tracked grow (suc fuel) name args s res e =
    elim (Option-cases (rt.builtins name)) [
      | inr (builtin, h) ↦ rw h (ground arith)
      | inl n ↦ elim (Option-cases (find_function name fns)) [
        | inl f ↦ absurd (ground arith)
        | inr (fn, f) ↦
            let (there, all) = find_function-optimized name fns fn tracked f in
            rw (n, there)
              (call_body-optimized (call_function (record rt { functions = fns }) fuel)
                (call_function (record rt { functions = program_optimized fns }) fuel) fuel fn args
                s res (optimize_blocks-call_function fns rt tracked grow fuel)
                (call_function-CallsGrow (record rt { functions = program_optimized fns }) fuel
                  grow)
                all (ground arith))
      ]
    ]
