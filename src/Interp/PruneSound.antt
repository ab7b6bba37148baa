-- ===== src/Interp/PruneSound.antt =====
-- Pruning (`pruneUnreachable` of compiler/stage0/internal/ir/opt.go) does not change what a frame
-- computes (`execFrame` of compiler/stage0/internal/interp/runtime.go).
use dast_lang.Base.{
  ap, zero, ◌∙◌, sym, refl, suc, inl, inr, Option-cases, List, ℕ, ◌⊎◌, ◌≡◌, String, none, some, [],
  ◌∷◌, arith,
}
use dast_lang.Ir.Reachable.{here, step, Reach, Has}
use dast_lang.Interp.Exec.{
  finish, exec_frame, exec_instrs, Calls, exec_block, goto, exec_term, branch_on,
}
use dast_lang.Ir.Prune.{block_targets, prune_blocks, find_block, mem_label, targets}
use dast_lang.Ir.Pruned.{prune_blocks-IsPruned, IsPruned}
use mathlib.Core.Path.{subst}
use dast_lang.Interp.Store.{err, Error, Result, ok}
use dast_lang.Ir.Syntax.{Block, Value, Term, jump, branch, return, no_term}
use text.Mathlib.TextEquality.{eq_iff}
use mathlib.Core.Option.{some-injective}
use dast_lang.Interp.Machine.{Machine}

branch_on-Has :
    (v : Value) (a b label : String) → branch_on v a b ≡ ok (goto label) → Has (b ∷ a ∷ []) label
unfolding mem_label
branch_on-Has v a b label e = ground (arith, eq_iff a label, eq_iff b label)

-- A terminator leads to one of its targets.
exec_term-Has :
    (term : Term) (m : Machine) (label : String)
    → exec_term term m ≡ ok (goto label)
    → Has (targets term) label
unfolding exec_term mem_label
exec_term-Has (jump target) m label e = ground (arith, eq_iff target label)
exec_term-Has (branch cond a b) m label e = ground (arith, eq_iff a label, eq_iff b label)
exec_term-Has (return none) m label e = cc
exec_term-Has (return (some op)) m label e = ground arith
exec_term-Has no_term m label e = cc

pub Result-cases {ℓ} :
    {A : Type ℓ} (r : Result A) → ((a : A) × (r ≡ ok a)) ⊎ ((e : Error) × (r ≡ err e))
Result-cases (ok a) = inl (a, refl)
Result-cases (err e) = inr (e, refl)

-- So does a block.
exec_block-Has :
    (calls : Calls) (fuel : ℕ) (blk : Block) (m m' : Machine) (label : String)
    → exec_block calls fuel blk m ≡ ok (m', goto label)
    → Has (targets blk.term) label
unfolding exec_block
exec_block-Has calls fuel blk m m' label e =
    elim (Result-cases (exec_instrs calls fuel blk.instr m)) [
      | inr (x, h) ↦ absurd (ground arith)
      | inl (n, h) ↦ elim (Result-cases (exec_term blk.term n)) [
        | inr (x, k) ↦ absurd (ground arith)
        | inl (exit, k) ↦ exec_term-Has blk.term n label (ground arith)
      ]
    ]

find_block-label :
    (label : String) (blocks : List Block) {blk : Block}
    → find_block label blocks ≡ some blk
    → blk.label ≡ label
unfolding find_block
find_block-label label [] e = cc
find_block-label label (b ∷ blocks) e = elim (Option-cases (find_block label blocks)) [
  | inl n ↦ ground (arith, eq_iff b.label label)
  | inr (later, n) ↦ ground (arith, find_block-label label blocks n)
]

module _ (calls : Calls) (fuel : ℕ) (entry : Block) (blocks kept : List Block)
    (pruned : IsPruned entry blocks kept) where
  abbrev Starts : Block → Type 0
  Starts blk =
      Reach (entry ∷ blocks) entry.label blk.label
      × (find_block blk.label (entry ∷ blocks) ≡ some blk)

  next-Starts :
      (blk next : Block) (m m' : Machine) (label : String)
      → Starts blk
      → exec_block calls fuel blk m ≡ ok (m', goto label)
      → find_block label (entry ∷ blocks) ≡ some next
      → (find_block label kept ≡ some next) × Starts next
  next-Starts blk next m m' label (r, f) h n =
      let target =
        subst (λ b. Has (block_targets b) label) (sym f)
          (exec_block-Has calls fuel blk m m' label h) in
      let here_too = step r target in
      let same = find_block-label label (entry ∷ blocks) n in
      (
        pruned.reached label here_too ∙ n,
        (
          subst (Reach (entry ∷ blocks) entry.label) (sym same) here_too,
          ap (λ l. find_block l (entry ∷ blocks)) same ∙ n,
        ),
      )

  exec_frame_reached :
      (rounds : ℕ) (blk : Block) (m : Machine)
      → Starts blk
      → exec_frame calls fuel kept rounds blk m
        ≡ exec_frame calls fuel (entry ∷ blocks) rounds blk m
  unfolding exec_frame
  exec_frame_reached zero blk m s = refl
  exec_frame_reached (suc rounds) blk m s = elim (Result-cases (exec_block calls fuel blk m)) [
    | inr (x, h) ↦ rw (h, exec_frame)
    | inl ((m', finish v), h) ↦ rw (h, exec_frame)
    | inl ((m', goto label), h) ↦ elim (Option-cases (find_block label (entry ∷ blocks))) [
      | inl n ↦
          let target =
            subst (λ b. Has (block_targets b) label) (sym s.1)
              (exec_block-Has calls fuel blk m m' label h) in
          let gone = pruned.reached label (step s.0 target) ∙ n in rw (h, n, gone, exec_frame)
      | inr (next, n) ↦
          let (found, t) = next-Starts blk next m m' label s h n in
          rw (h, n, found, exec_frame) (exec_frame_reached rounds next m' t)
    ]
  ]

-- A frame that starts at the entry block computes the same on the pruned blocks as on all of them,
-- for every meaning of the calls, every number of rounds and every state, results and errors alike,
-- provided that no later block takes the entry's label.
pub prune_blocks-exec_frame :
    (calls : Calls) (fuel rounds : ℕ) (entry : Block) (blocks kept : List Block) (m : Machine)
    → find_block entry.label (entry ∷ blocks) ≡ some entry
    → prune_blocks (entry ∷ blocks) ≡ some kept
    → exec_frame calls fuel kept rounds entry m
      ≡ exec_frame calls fuel (entry ∷ blocks) rounds entry m
prune_blocks-exec_frame calls fuel rounds entry blocks kept m f e =
    let (found, h, p) = prune_blocks-IsPruned entry blocks in
    exec_frame_reached calls fuel entry blocks kept
      (subst (IsPruned entry blocks) (some-injective _ _ (sym h ∙ e)) p) rounds entry m (here, f)
