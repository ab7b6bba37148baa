-- ===== src/Interp/OptimizeSound.antt =====
-- The pass of `optimizeBlock` (compiler/stage0/internal/ir/opt.go) over the blocks of a function
-- against `execFrame` (compiler/stage0/internal/interp/runtime.go).
use text.Mathlib.Text.{◌==◌ as str_eq}
use mathlib.Core.Path.{subst}
use mathlib.Core.Option.{some-injective}
use dast_lang.Base.{
  ap, inr, inl, Option-cases, ◌∷◌, All, refl, true, [], Option, suc, zero, none, ◌∙◌, arith, false,
  some, String, ◌≡◌, List, ℕ, Bool, ◌||◌, Bool-cases,
}
use dast_lang.Interp.ConstsHold.{OwnsCells, bind-ok, ok-injective}
use dast_lang.Interp.ConstsSound.{
  CallsGrow, Tracked, exec_instrs-ConstsHold, no_consts-ConstsHold, optimize_block-exec_term,
}
use dast_lang.Interp.Exec.{
  exec_instrs, exec_term, exec_instr, exec_block, exec_frame, Calls, goto, finish, Exit,
}
use dast_lang.Interp.Machine.{Store, Machine, eval_operand}
use dast_lang.Interp.PruneSound.{Result-cases}
use dast_lang.Interp.Refs.{index_value, set_index_value, array_at}
use dast_lang.Interp.Store.{ok}
use dast_lang.Ir.BlockPass.{
  optimize_instr, optimize_instrs, optimize_block, optimize_blocks, Consts, no_consts,
  no_check_needed,
}
use dast_lang.Ir.Prune.{find_block}
use dast_lang.Ir.Syntax.{Value, int, Instr, call, index, set_index, Block}

-- Where an index is read with success, it is read so without the check.
index_value_unchecked :
    (marked unchecked : Bool) (s : Store) (fuel : ℕ) (base idx : Value) {v : Value}
    → index_value unchecked s fuel base idx ≡ ok v
    → index_value (marked || unchecked) s fuel base idx ≡ ok v
unfolding index_value
index_value_unchecked false unchecked s fuel base idx e = e
index_value_unchecked true true s fuel base idx e = e
index_value_unchecked true false s fuel base (int i t) e =
    elim (Result-cases (array_at s fuel base)) [
      | inr (x, h) ↦ absurd (ground arith)
      | inl ((p, elems), h) ↦ ground arith
    ]
index_value_unchecked true false s fuel base _ e = absurd (ground arith)

set_index_value_unchecked :
    (marked unchecked : Bool) (s : Store) (fuel : ℕ) (base idx v : Value) {s' : Store}
    → set_index_value unchecked s fuel base idx v ≡ ok s'
    → set_index_value (marked || unchecked) s fuel base idx v ≡ ok s'
unfolding set_index_value
set_index_value_unchecked false unchecked s fuel base idx v e = e
set_index_value_unchecked true true s fuel base idx v e = e
set_index_value_unchecked true false s fuel base (int i t) v e =
    elim (Result-cases (array_at s fuel base)) [
      | inr (x, h) ↦ absurd (ground arith)
      | inl ((p, elems), h) ↦ ground arith
    ]
set_index_value_unchecked true false s fuel base _ v e = absurd (ground arith)

-- So an instruction that succeeds does so with its mark.
exec_instr-optimize_instr :
    (calls : Calls) (fuel : ℕ) (instrs : List Instr) (c : Consts) (inst : Instr) (m : Machine)
    {m' : Machine}
    → exec_instr calls fuel inst m ≡ ok m'
    → exec_instr calls fuel ((optimize_instr instrs inst c).0) m ≡ ok m'
unfolding exec_instr optimize_instr
exec_instr-optimize_instr calls fuel instrs c (index unchecked dst base idx) m e =
    let (b, g, k) = bind-ok (eval_operand m base) _ e in
    let (i, g', k') = bind-ok (eval_operand m idx) _ k in
    let (v, g'', k'') = bind-ok (index_value unchecked m.store fuel b i) _ k' in
    let same =
      index_value_unchecked (no_check_needed instrs c base idx) unchecked m.store fuel b i g'' in
    rw (g, g', same) k''
exec_instr-optimize_instr calls fuel instrs c (set_index unchecked base idx src) m e =
    let (b, g, k) = bind-ok (eval_operand m base) _ e in
    let (i, g', k') = bind-ok (eval_operand m idx) _ k in
    let (v, p, l) = bind-ok (eval_operand m src) _ k' in
    let (s, p', l') = bind-ok (set_index_value unchecked m.store fuel b i v) _ l in
    let same =
      set_index_value_unchecked (no_check_needed instrs c base idx) unchecked m.store fuel b i v
        p' in
    rw (g, g', p, same) l'
exec_instr-optimize_instr calls fuel instrs c (call (some dst) callee args) m e = e
exec_instr-optimize_instr calls fuel instrs c (call none callee args) m e = e
exec_instr-optimize_instr calls fuel instrs c _ m e = e

exec_instrs-optimize_instrs :
    (calls : Calls) (fuel : ℕ) (instrs later : List Instr) (c : Consts) (m : Machine) {m' : Machine}
    → exec_instrs calls fuel later m ≡ ok m'
    → exec_instrs calls fuel ((optimize_instrs instrs later c).0) m ≡ ok m'
unfolding exec_instrs optimize_instrs
exec_instrs-optimize_instrs calls fuel instrs [] c m e = e
exec_instrs-optimize_instrs calls fuel instrs (inst ∷ later) c m e =
    let (n, g, k) = bind-ok (exec_instr calls fuel inst m) _ e in
    rw (exec_instr-optimize_instr calls fuel instrs c inst m g)
      (exec_instrs-optimize_instrs calls fuel instrs later ((optimize_instr instrs inst c).1) n k)

abbrev pub optimized : Option Block → Option Block
optimized none = none
optimized (some blk) = some (optimize_block blk)

pub find_block-optimize_blocks :
    (label : String) (blocks : List Block)
    → find_block label (optimize_blocks blocks) ≡ optimized (find_block label blocks)
unfolding find_block optimize_block
find_block-optimize_blocks label [] = refl
find_block-optimize_blocks label (blk ∷ blocks) =
    let later = find_block-optimize_blocks label blocks in
    elim (Option-cases (find_block label blocks)) [
      | inr (b, n) ↦ rw (n, later ∙ ap optimized n) refl
      | inl n ↦ elim (Bool-cases (str_eq blk.label label)) [
        | inl t ↦ rw (n, later ∙ ap optimized n, t) refl
        | inr f ↦ rw (n, later ∙ ap optimized n, f) refl
      ]
    ]

-- What holds of all blocks holds of the one that a label names.
find_block-All :
    (P : Block → Type 0) (label : String) (blocks : List Block) {blk : Block}
    → All P blocks
    → find_block label blocks ≡ some blk
    → P blk
unfolding find_block
find_block-All P label [] a e = absurd (ground arith)
find_block-All P label (b ∷ blocks) {blk = blk} a e =
    elim (Option-cases (find_block label blocks)) [
      | inr (later, n) ↦ find_block-All P label blocks a.1 (ground arith)
      | inl n ↦ elim (Bool-cases (str_eq b.label label)) [
        | inl t ↦
            let same : some b ≡ some blk = ground arith in subst P (some-injective _ _ same) a.0
        | inr f ↦ absurd (ground arith)
      ]
    ]

abbrev pub TrackedBlock : Block → Type 0
TrackedBlock blk = All Tracked blk.instr

module _ (calls : Calls) (grow : CallsGrow calls) (fuel : ℕ) where
  optimize_block-exec_block :
      (blk : Block) (m m' : Machine) {exit : Exit}
      → OwnsCells m
      → TrackedBlock blk
      → exec_block calls (suc fuel) blk m ≡ ok (m', exit)
      → (exec_block calls (suc fuel) (optimize_block blk) m ≡ ok (m', exit)) × OwnsCells m'
  unfolding exec_block optimize_block
  optimize_block-exec_block blk m m' owns tracked e =
      let (n, g, k) = bind-ok (exec_instrs calls (suc fuel) blk.instr m) _ e in
      let (x, g', k') = bind-ok (exec_term blk.term n) _ k in
      let held =
        exec_instrs-ConstsHold calls grow fuel blk.instr blk.instr (no_consts-ConstsHold owns)
          tracked g in
      let ran = exec_instrs-optimize_instrs calls (suc fuel) blk.instr blk.instr no_consts m g in
      let led = optimize_block-exec_term calls fuel blk m n grow owns tracked g ∙ g' in
      (rw (ran, led) k', subst OwnsCells (ap (λ r. r.0) (ok-injective k')) held.owns)

  optimize_blocks-frame :
      (blocks : List Block) (rounds : ℕ) (blk : Block) (m : Machine) {res : Machine × Value}
      → OwnsCells m
      → TrackedBlock blk
      → All TrackedBlock blocks
      → exec_frame calls (suc fuel) blocks rounds blk m ≡ ok res
      → exec_frame calls (suc fuel) (optimize_blocks blocks) rounds (optimize_block blk) m ≡ ok res
  unfolding exec_frame
  optimize_blocks-frame blocks zero blk m owns tracked all e = absurd (ground arith)
  optimize_blocks-frame blocks (suc rounds) blk m owns tracked all e =
      elim (Result-cases (exec_block calls (suc fuel) blk m)) [
        | inr (x, h) ↦ absurd (ground arith)
        | inl ((m', finish v), h) ↦
            let (ran, kept) = optimize_block-exec_block blk m m' owns tracked h in
            rw (ran, exec_frame) (ground arith)
        | inl ((m', goto label), h) ↦
            let (ran, kept) = optimize_block-exec_block blk m m' owns tracked h in
            elim (Option-cases (find_block label blocks)) [
              | inl n ↦ absurd (ground arith)
              | inr (next, n) ↦
                  rw (ran, find_block-optimize_blocks label blocks ∙ ap optimized n, exec_frame)
                    (optimize_blocks-frame blocks rounds next m' kept
                      (find_block-All TrackedBlock label blocks all n) all (ground arith))
            ]
      ]

-- A frame that returns a value returns the same value in the same state after the pass over its
-- blocks, which decides branches and drops bounds checks, provided that the variables of the frame
-- have cells of their own, that calls give no cell back, that the integer constants of the blocks have
-- no unsigned type, and that the blocks have no call of a closure and take no address of a field or an
-- element.
pub optimize_blocks-exec_frame :
    (calls : Calls) (fuel rounds : ℕ) (blocks : List Block) (blk : Block) (m : Machine)
    (res : Machine × Value)
    → CallsGrow calls
    → OwnsCells m
    → TrackedBlock blk
    → All TrackedBlock blocks
    → exec_frame calls (suc fuel) blocks rounds blk m ≡ ok res
    → exec_frame calls (suc fuel) (optimize_blocks blocks) rounds (optimize_block blk) m ≡ ok res
optimize_blocks-exec_frame calls fuel rounds blocks blk m res grow owns tracked all e =
    optimize_blocks-frame calls grow fuel blocks rounds blk m owns tracked all e
