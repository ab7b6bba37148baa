-- ===== src/Interp/PruneCalls.antt =====
-- Pruning (`pruneUnreachable` of compiler/stage0/internal/ir/opt.go) of all functions of a program
-- does not change what its calls compute (`callFunction` of
-- compiler/stage0/internal/interp/runtime.go).
use dast_lang.Interp.Store.{wrong_arity, ◌>>=◌, err}
use dast_lang.Base.{
  ◌==◌, Bool-cases, length, codes, not, if◌then◌else◌, runes_eq, ◌∙◌, inr, none, refl, arith, zero,
  inl, suc, sym, Option-cases, Runes, ap, some, Option, [], ◌≡◌, String, ℕ, ◌∷◌, List,
}
use dast_lang.Interp.Call.{
  new_frame, bind_params, leave, call_found, Runtime, find_function, call_body, call_blocks,
  call_function,
}
use mathlib.Core.Option.{some-injective}
use mathlib.Core.Path.{subst, fun_ext}
use dast_lang.Ir.Syntax.{Block, Function, Value}
use dast_lang.Interp.Exec.{Calls}
use dast_lang.Interp.Machine.{Store}
use dast_lang.Interp.PruneSound.{prune_blocks-exec_frame}
use dast_lang.Ir.Prune.{prune_blocks, prune_unreachable, find_block}
use dast_lang.Ir.Pruned.{prune_blocks-IsPruned}

-- The first block is the one that its label names.
abbrev pub EntryIsNamed : List Block → Type 0
EntryIsNamed [] = Unit
EntryIsNamed (entry ∷ blocks) = find_block entry.label (entry ∷ blocks) ≡ some entry

abbrev pub EntriesAreNamed : List (String × Function) → Type 0
EntriesAreNamed [] = Unit
EntriesAreNamed ((name, fn) ∷ fns) = EntryIsNamed fn.blocks × EntriesAreNamed fns

-- The second program has the functions of the first, pruned.
abbrev pub ArePruned : List (String × Function) → List (String × Function) → Type 0
ArePruned [] [] = Unit
ArePruned ((name, fn) ∷ fns) ((name', fn') ∷ fns') =
    (name' ≡ name) × (prune_unreachable fn ≡ some fn') × ArePruned fns fns'
ArePruned _ _ = ⊥

call_blocks_pruned :
    (calls : Calls) (fuel : ℕ) (fn : Function) (args : List Value) (s : Store)
    (blocks kept : List Block)
    → EntryIsNamed blocks
    → prune_blocks blocks ≡ some kept
    → call_blocks calls fuel fn args s kept ≡ call_blocks calls fuel fn args s blocks
unfolding prune_blocks
call_blocks_pruned calls fuel fn args s [] kept named e =
    ap (call_blocks calls fuel fn args s) (sym (some-injective _ _ e))
call_blocks_pruned calls fuel fn args s (entry ∷ blocks) kept named e =
    let (kept', h, pruned) = prune_blocks-IsPruned entry blocks in
    let (rest, first) = pruned.entry_first in
    let same = some-injective _ _ (sym e ∙ h) ∙ first in
    ap (call_blocks calls fuel fn args s) same
    ∙ ap (λ r. r >>= leave)
        (prune_blocks-exec_frame calls fuel fuel entry blocks (entry ∷ rest)
          (bind_params 0 fn.params args (record { frame = new_frame fn; store = s })) named
          (e ∙ ap some same))

call_body_pruned :
    (calls : Calls) (fuel : ℕ) (fn fn' : Function)
    → EntryIsNamed fn.blocks
    → prune_unreachable fn ≡ some fn'
    → (args : List Value) (s : Store)
    → call_body calls fuel fn' args s ≡ call_body calls fuel fn args s
unfolding prune_unreachable
call_body_pruned calls fuel fn fn' named e args s = elim (Option-cases (prune_blocks fn.blocks)) [
  | inl n ↦ absurd (ground arith)
  | inr (kept, h) ↦
      let e' : some (record fn { blocks = kept }) ≡ some fn' = cc in
      subst (λ f. call_body calls fuel f args s ≡ call_body calls fuel fn args s)
        (some-injective _ _ e')
        (ap (λ r. if not (length args == length fn.params) then err wrong_arity else r)
          (call_blocks_pruned calls fuel fn args s fn.blocks kept named h))
]

-- The functions that a name finds in the two programs.
abbrev SameBodies : Option Function → Option Function → Type 0
SameBodies none none = Unit
SameBodies (some fn) (some fn') =
    (calls : Calls) (fuel : ℕ) (args : List Value) (s : Store)
    → call_body calls fuel fn' args s ≡ call_body calls fuel fn args s
SameBodies (some _) none = ⊥
SameBodies none (some _) = ⊥

find_function-SameBodies :
    (name : Runes) (fns fns' : List (String × Function))
    → EntriesAreNamed fns
    → ArePruned fns fns'
    → SameBodies (find_function name fns) (find_function name fns')
unfolding find_function
find_function-SameBodies name [] [] named p = tt
find_function-SameBodies name ((key, fn) ∷ fns) ((key', fn') ∷ fns') named p =
    let tested : runes_eq (codes key') name ≡ runes_eq (codes key) name =
      ap (λ k. runes_eq (codes k) name) p.0 in
    elim (Bool-cases (runes_eq (codes key) name)) [
      | inl t ↦ rw (t, tested ∙ t) (λ calls fuel. call_body_pruned calls fuel fn fn' named.0 p.1)
      | inr f ↦ rw (f, tested ∙ f) (find_function-SameBodies name fns fns' named.1 p.2)
    ]
find_function-SameBodies name [] (x ∷ fns') named p = absurd p
find_function-SameBodies name (x ∷ fns) [] named p = absurd p

call_found_same :
    (calls calls' : Calls) (fuel : ℕ) (args : List Value) (s : Store) (o o' : Option Function)
    → calls' ≡ calls
    → SameBodies o o'
    → call_found calls' fuel args s o' ≡ call_found calls fuel args s o
call_found_same calls calls' fuel args s none none e same = refl
call_found_same calls calls' fuel args s (some fn) (some fn') e same =
    ap (λ c. call_body c fuel fn' args s) e ∙ same calls fuel args s
call_found_same calls calls' fuel args s (some fn) none e same = absurd same
call_found_same calls calls' fuel args s none (some fn') e same = absurd same

-- A call computes the same, results and errors alike, in a program whose functions are all pruned,
-- whatever the fuel, the arguments, the store and the built-in functions, provided that in no
-- function a later block takes the label of the first.
pub prune_unreachable-call_function :
    (fns fns' : List (String × Function)) (rt : Runtime)
    → EntriesAreNamed fns
    → ArePruned fns fns'
    → (fuel : ℕ) (name : Runes) (args : List Value) (s : Store)
    → call_function (record rt { functions = fns' }) fuel name args s
      ≡ call_function (record rt { functions = fns }) fuel name args s
unfolding call_function
prune_unreachable-call_function fns fns' rt named p zero name args s = refl
prune_unreachable-call_function fns fns' rt named p (suc fuel) name args s =
    elim (Option-cases (rt.builtins name)) [
      | inr (builtin, h) ↦ rw (h, call_function)
      | inl n ↦
          let calls = fun_ext (λ f. fun_ext (λ vs.
            fun_ext (λ t. prune_unreachable-call_function fns fns' rt named p fuel f vs t))) in
          rw (n, call_function)
            (call_found_same (call_function (record rt { functions = fns }) fuel)
              (call_function (record rt { functions = fns' }) fuel) fuel args s
              (find_function name fns) (find_function name fns') calls
              (find_function-SameBodies name fns fns' named p))
    ]
