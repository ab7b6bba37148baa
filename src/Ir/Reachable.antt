-- ===== src/Ir/Reachable.antt =====
-- `pruneUnreachable` ends, and keeps exactly the blocks that control can reach.

use dast_lang.Base.{
  refl, zero, Bool-cases, suc, ◌*◌, length, ℕ, ◌+◌, ◌≤◌, ◌<◌, ◌≡◌, ◌⊎◌, inl, inr, String, true,
  false, Option-cases, some, List, [], ◌∷◌, if◌then◌else◌, arith,
}
use dast_lang.Ir.Prune.{targets, mark_reachable, find_block, mem_label, block_targets, push_all}
use dast_lang.Ir.Syntax.{Term, Block}
use text.Mathlib.TextEquality.{eq_iff}

abbrev pub Has : List String → String → Type 0
Has labels label = mem_label label labels ≡ true

-- Control can go from the block `entry` to the label.
pub data Reach (blocks : List Block) (entry : String) : String → Type 0 where
  here : Reach blocks entry entry
  step :
      {from to : String}
      → Reach blocks entry from
      → Has (block_targets (find_block from blocks)) to
      → Reach blocks entry to

pub Has-push_all :
    (label : String) (labels work : List String)
    → Has (push_all labels work) label
    → Has labels label ⊎ Has work label
unfolding mem_label
Has-push_all label [] work h = inr h
Has-push_all label (l ∷ labels) work h = ground (arith, Has-push_all label labels work)

pub push_all-Has_left :
    (label : String) (labels work : List String)
    → Has labels label
    → Has (push_all labels work) label
unfolding mem_label
push_all-Has_left label [] work h = cc
push_all-Has_left label (l ∷ labels) work h = ground (arith, push_all-Has_left label labels work)

pub push_all-Has_right :
    (label : String) (labels work : List String) → Has work label → Has (push_all labels work) label
unfolding mem_label
push_all-Has_right label [] work h = h
push_all-Has_right label (l ∷ labels) work h = ground (arith, push_all-Has_right label labels work)

pub Has-cons :
    (label l : String) (labels : List String)
    → Has (l ∷ labels) label
    → (l ≡ label) ⊎ Has labels label
unfolding mem_label
Has-cons label l labels h = ground (arith, eq_iff l label)

pub cons-Has_self : (label : String) (labels : List String) → Has (label ∷ labels) label
unfolding mem_label
cons-Has_self label labels = ground (arith, eq_iff label label)

pub cons-Has : (label l : String) (labels : List String) → Has labels label → Has (l ∷ labels) label
unfolding mem_label
cons-Has label l labels h = ground arith

-- The blocks whose label is not marked yet.
abbrev pub unmarked : List String → List Block → ℕ
unmarked reachable [] = 0
unmarked reachable (blk ∷ blocks) =
    (if mem_label blk.label reachable then 0 else 1) + unmarked reachable blocks

unmarked-cons-le :
    (label : String) (reachable : List String) (blocks : List Block)
    → unmarked (label ∷ reachable) blocks ≤ unmarked reachable blocks
unfolding mem_label
unmarked-cons-le label reachable [] = omega arith
unmarked-cons-le label reachable (blk ∷ blocks) =
    ground (arith, unmarked-cons-le label reachable blocks)

unmarked-cons-lt :
    (label : String) (reachable : List String) (blocks : List Block) (blk : Block)
    → mem_label label reachable ≡ false
    → find_block label blocks ≡ some blk
    → unmarked (label ∷ reachable) blocks < unmarked reachable blocks
unfolding mem_label find_block
unmarked-cons-lt label reachable [] blk n h = cc
unmarked-cons-lt label reachable (b ∷ blocks) blk n h =
    elim (Option-cases (find_block label blocks)) [
      | inr (later, e) ↦ ground (arith, unmarked-cons-lt label reachable blocks later n e)
      | inl e ↦ ground (
        arith,
        eq_iff b.label label,
        unmarked-cons-le label reachable blocks,
        eq_iff label b.label,
      )
    ]

length-push_all :
    (labels work : List String) → length (push_all labels work) ≡ length labels + length work
length-push_all [] work = omega arith
length-push_all (l ∷ labels) work = omega (arith, length-push_all labels work)

length-targets-le : (term : Term) → length (targets term) ≤ 2
length-targets-le (Term.jump target) = omega arith
length-targets-le (Term.branch cond a b) = omega arith
length-targets-le (Term.return value) = omega arith
length-targets-le Term.no_term = omega arith

-- A round of the loop at a label that is not marked makes the measure smaller.
mark_measure :
    (blocks : List Block) (label : String) (work reachable : List String)
    → mem_label label reachable ≡ false
    → length (push_all (block_targets (find_block label blocks)) work)
        + 2 * unmarked (label ∷ reachable) blocks
      < length (label ∷ work) + 2 * unmarked reachable blocks
mark_measure blocks label work reachable n = elim (Option-cases (find_block label blocks)) [
  | inl e ↦ rw e (omega (arith, unmarked-cons-le label reachable blocks))
  | inr (blk, e) ↦ rw e (
      omega (
        arith,
        length-push_all (targets blk.term) work,
        length-targets-le blk.term,
        unmarked-cons-lt label reachable blocks blk n e,
      ))
]

pub mark_reachable_total :
    (blocks : List Block) (fuel : ℕ) (work reachable : List String)
    → length work + 2 * unmarked reachable blocks < fuel
    → (result : List String) × (mark_reachable blocks fuel work reachable ≡ some result)
unfolding mark_reachable
mark_reachable_total blocks zero work reachable h = absurd (omega arith)
mark_reachable_total blocks (suc fuel) [] reachable h = (reachable, refl)
mark_reachable_total blocks (suc fuel) (label ∷ work) reachable h =
    elim (Bool-cases (mem_label label reachable)) [
      | inl t ↦
          rw (t, mark_reachable) (mark_reachable_total blocks fuel work reachable (omega arith))
      | inr f ↦
          rw (f, mark_reachable)
            (mark_reachable_total blocks fuel
              (push_all (block_targets (find_block label blocks)) work) (label ∷ reachable)
              (omega (arith, mark_measure blocks label work reachable f)))
    ]
