-- ===== src/Ir/Pruned.antt =====
-- What `pruneUnreachable` of compiler/stage0/internal/ir/opt.go leaves of a function.
use dast_lang.Ir.Reachable.{
  cons-Has_self, Has-cons, Has, Reach, here, step, unmarked, mark_reachable_total,
}
use mathlib.Core.Path.{subst}
use dast_lang.Base.{
  ◌⊎◌, ◌≤◌, ◌≡◌, refl, String, false, inl, inr, Bool-cases, none, some, List, [], ◌∷◌, length,
  arith,
}
use text.Mathlib.TextEquality.{eq_iff}
use dast_lang.Ir.Marking.{MarkInv, mark_reachable-MarkInv}
use dast_lang.Ir.Prune.{find_block, mem_label, keep_reachable, prune_fuel, prune_blocks}
use dast_lang.Ir.Syntax.{Block}

unmarked-nil : (blocks : List Block) → unmarked [] blocks ≤ length blocks
unfolding mem_label
unmarked-nil [] = omega arith
unmarked-nil (blk ∷ blocks) = omega (arith, unmarked-nil blocks)

find_block-keep :
    (reachable : List String) (label : String) (blocks : List Block)
    → Has reachable label
    → find_block label (keep_reachable reachable blocks) ≡ find_block label blocks
unfolding find_block keep_reachable
find_block-keep reachable label [] h = refl
find_block-keep reachable label (blk ∷ blocks) h =
    ground (arith, find_block-keep reachable label blocks h, eq_iff blk.label label)

find_block-keep_none :
    (reachable : List String) (label : String) (blocks : List Block)
    → mem_label label reachable ≡ false
    → find_block label (keep_reachable reachable blocks) ≡ none
unfolding find_block keep_reachable
find_block-keep_none reachable label [] h = refl
find_block-keep_none reachable label (blk ∷ blocks) h =
    ground (arith, find_block-keep_none reachable label blocks h, eq_iff blk.label label)

-- The blocks `kept` of the function whose blocks are `entry` and `blocks`.
pub record IsPruned (entry : Block) (blocks kept : List Block) : Type 0 where
  pub entry_first : (rest : List Block) × (kept ≡ entry ∷ rest)
  pub no_longer : length kept ≤ length (entry ∷ blocks)
  pub reached :
      (label : String)
      → Reach (entry ∷ blocks) entry.label label
      → find_block label kept ≡ find_block label (entry ∷ blocks)
  pub dropped :
      (label : String) → ¬ Reach (entry ∷ blocks) entry.label label → find_block label kept ≡ none

length-keep_reachable-le :
    (reachable : List String) (blocks : List Block)
    → length (keep_reachable reachable blocks) ≤ length blocks
unfolding keep_reachable
length-keep_reachable-le reachable [] = omega arith
length-keep_reachable-le reachable (blk ∷ blocks) =
    ground (arith, length-keep_reachable-le reachable blocks)

-- At the end of the loop the marked labels are closed under the edges.
Reach-Has :
    {blocks : List Block} {entry : String} {result : List String} (label : String)
    → MarkInv blocks entry [] result
    → Reach blocks entry label
    → Has result label
unfolding mem_label
Reach-Has label inv here = ground (arith, inv.started)
Reach-Has {result = result} label inv (step {from} r h) =
    ground (arith, inv.closed from label (Reach-Has from inv r) h)

MarkInv-IsPruned :
    (entry : Block) (blocks : List Block) {result : List String}
    → MarkInv (entry ∷ blocks) entry.label [] result
    → IsPruned entry blocks (keep_reachable result (entry ∷ blocks))
unfolding keep_reachable
MarkInv-IsPruned entry blocks {result} inv = record {
  entry_first = (keep_reachable result blocks, rw (Reach-Has entry.label inv here));
  no_longer = length-keep_reachable-le result (entry ∷ blocks);
  reached = λ label r. find_block-keep result label (entry ∷ blocks) (Reach-Has label inv r);
  dropped = λ label n. elim (Bool-cases (mem_label label result)) [
    | inl t ↦ absurd (n (inv.sound label (inr t)))
    | inr f ↦ find_block-keep_none result label (entry ∷ blocks) f
  ];
}

start-MarkInv :
    (entry : Block) (blocks : List Block)
    → MarkInv (entry ∷ blocks) entry.label (entry.label ∷ []) []
unfolding mem_label
start-MarkInv entry blocks = record {
  sound = λ l s. started_at l s;
  closed = λ from to h k. cc;
  started = inr (cons-Has_self entry.label []);
}
  where
    at_entry : (l : String) → (entry.label ≡ l) ⊎ Has [] l → Reach (entry ∷ blocks) entry.label l
    at_entry l (inl e) = subst (Reach (entry ∷ blocks) entry.label) e here
    at_entry l (inr h) = cc

    started_at :
        (l : String) → Has (entry.label ∷ []) l ⊎ Has [] l → Reach (entry ∷ blocks) entry.label l
    started_at l (inl h) = at_entry l (Has-cons l entry.label [] h)
    started_at l (inr h) = cc

-- Pruning ends. The entry block stays in front; a label that control can reach from the entry names
-- the block that it named before, and no other label names a block.
pub prune_blocks-IsPruned :
    (entry : Block) (blocks : List Block)
    → (kept : List Block) × (prune_blocks (entry ∷ blocks) ≡ some kept) × IsPruned entry blocks kept
unfolding prune_blocks
prune_blocks-IsPruned entry blocks =
    let (result, e) =
      mark_reachable_total (entry ∷ blocks) (prune_fuel (entry ∷ blocks)) (entry.label ∷ []) []
        (omega (arith, unmarked-nil (entry ∷ blocks))) in
    let inv =
      mark_reachable-MarkInv (entry ∷ blocks) entry.label (prune_fuel (entry ∷ blocks))
        (entry.label ∷ []) [] (start-MarkInv entry blocks) e in
    (
      keep_reachable result (entry ∷ blocks),
      rw (e, prune_blocks),
      MarkInv-IsPruned entry blocks inv,
    )
