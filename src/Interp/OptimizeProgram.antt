-- ===== src/Interp/OptimizeProgram.antt =====
-- `Optimize` (compiler/stage0/internal/ir/opt.go) on a program without anything to inline, against
-- `callFunction` (compiler/stage0/internal/interp/runtime.go).
use dast_lang.Base.{
  ℕ, String, some, List, [], ◌∷◌, ◌≡◌, refl, ap, ◌∙◌, sym, inl, inr, arith, Runes, ◌≤◌,
  Option-cases,
}
use dast_lang.Interp.Call.{Runtime, call_function}
use dast_lang.Interp.Machine.{Store}
use dast_lang.Interp.OptimizeCalls.{
  TrackedProgram, program_optimized, blocks_optimized, optimize_blocks-call_function,
}
use dast_lang.Interp.OptimizeSound.{find_block-optimize_blocks, optimized}
use dast_lang.Interp.PruneCalls.{
  EntryIsNamed, EntriesAreNamed, ArePruned, prune_unreachable-call_function,
}
use dast_lang.Interp.Store.{Result, ok}
use dast_lang.Ir.BlockPass.{
  optimize, optimize_all, optimize_function, optimize_block, optimize_blocks,
}
use dast_lang.Ir.Inline.{collect_inline_candidates}
use dast_lang.Ir.Passes.{inline_calls-nil}
use dast_lang.Ir.Prune.{prune_unreachable}
use dast_lang.Ir.Syntax.{Block, Function, Value}
use mathlib.Core.Option.{some-injective}
use mathlib.Core.Path.{subst}

optimize_function-nil :
    (fn : Function) → optimize_function [] fn ≡ prune_unreachable (blocks_optimized fn)
unfolding optimize_function
optimize_function-nil fn = ap (λ f. prune_unreachable (blocks_optimized f)) (inline_calls-nil fn)

optimize_all-ArePruned :
    (fns fns' : List (String × Function))
    → optimize_all [] fns ≡ some fns'
    → ArePruned (program_optimized fns) fns'
optimize_all-ArePruned [] fns' e = subst (ArePruned []) (some-injective _ _ e) tt
optimize_all-ArePruned ((name, fn) ∷ fns) fns' e = elim (Option-cases (optimize_function [] fn)) [
  | inl n ↦ absurd (ground arith)
  | inr (fn', f) ↦ elim (Option-cases (optimize_all [] fns)) [
    | inl n ↦ absurd (ground arith)
    | inr (rest, r) ↦
        let same : some ((name, fn') ∷ rest) ≡ some fns' = ground arith in
        subst (ArePruned ((name, blocks_optimized fn) ∷ program_optimized fns))
          (some-injective _ _ same)
          (refl, sym (optimize_function-nil fn) ∙ f, optimize_all-ArePruned fns rest r)
  ]
]

EntryIsNamed-optimized :
    (blocks : List Block) → EntryIsNamed blocks → EntryIsNamed (optimize_blocks blocks)
unfolding optimize_block
EntryIsNamed-optimized [] named = tt
EntryIsNamed-optimized (entry ∷ blocks) named =
    find_block-optimize_blocks entry.label (entry ∷ blocks) ∙ ap optimized named

EntriesAreNamed-optimized :
    (fns : List (String × Function)) → EntriesAreNamed fns → EntriesAreNamed (program_optimized fns)
EntriesAreNamed-optimized [] named = tt
EntriesAreNamed-optimized ((name, fn) ∷ fns) named =
    (EntryIsNamed-optimized fn.blocks named.0, EntriesAreNamed-optimized fns named.1)

-- What a call returns it returns, with the same store, in the optimised program, whatever the fuel,
-- the arguments and the store, provided that the program has no candidate for inlining, that in no
-- function a later block takes the label of the first, that the integer constants of the program have
-- no unsigned type, that the program has no call of a closure and takes no address of a field or an
-- element, and that the built-in functions give no cell back.
pub optimize-call_function :
    (fns fns' : List (String × Function)) (rt : Runtime)
    → collect_inline_candidates fns ≡ []
    → optimize fns ≡ some fns'
    → EntriesAreNamed fns
    → TrackedProgram fns
    → ((name : Runes) (builtin : List Value → Store → Result (Value × Store)) (args : List Value)
          (s s' : Store) (v : Value)
        → rt.builtins name ≡ some builtin
        → builtin args s ≡ ok (v, s')
        → s.next_cell ≤ s'.next_cell)
    → (fuel : ℕ) (name : Runes) (args : List Value) (s : Store) (res : Value × Store)
    → call_function (record rt { functions = fns }) fuel name args s ≡ ok res
    → call_function (record rt { functions = fns' }) fuel name args s ≡ ok res
unfolding optimize
optimize-call_function fns fns' rt nothing e named tracked grow fuel name args s res ran =
    let passed = ap (λ inline. optimize_all inline fns) (sym nothing) ∙ e in
    prune_unreachable-call_function (program_optimized fns) fns' rt
      (EntriesAreNamed-optimized fns named) (optimize_all-ArePruned fns fns' passed) fuel name args
      s
    ∙ optimize_blocks-call_function fns rt tracked grow fuel name args s res ran
