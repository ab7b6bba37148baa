-- ===== src/Ir/Prune.antt =====
-- `pruneUnreachable` of compiler/stage0/internal/ir/opt.go.
use text.Mathlib.Text.{◌==◌ as str_eq}
use dast_lang.Base.{
  ℕ, zero, suc, ◌+◌, String, Bool, true, false, ◌||◌, Option, none, some, List, [], ◌∷◌, ◌*◌,
  if◌then◌else◌, length,
}
use dast_lang.Ir.Syntax.{Term, jump, branch, Block, Function}

-- The map from labels to blocks: of two blocks with one label the later stays.
unfoldable pub find_block : String → List Block → Option Block
find_block label [] = none
find_block label (blk ∷ blocks) = elim (find_block label blocks) [
  | some later ↦ some later
  | none ↦ if str_eq blk.label label then some blk else none
]

unfoldable pub mem_label : String → List String → Bool
mem_label label [] = false
mem_label label (l ∷ labels) = str_eq l label || mem_label label labels

-- The labels that a terminator leads to, the last appended first.
abbrev pub targets : Term → List String
targets (jump target) = target ∷ []
targets (branch cond then_target else_target) = else_target ∷ then_target ∷ []
targets _ = []

abbrev pub block_targets : Option Block → List String
block_targets none = []
block_targets (some blk) = targets blk.term

abbrev pub push_all : List String → List String → List String
push_all [] work = work
push_all (l ∷ labels) work = l ∷ push_all labels work

-- The loop on `work`, whose end is the head of the list here; `none` means that the fuel ran out.
unfoldable pub mark_reachable : List Block → ℕ → List String → List String → Option (List String)
unfolding find_block mem_label
mark_reachable blocks zero work reachable = none
mark_reachable blocks (suc fuel) [] reachable = some reachable
mark_reachable blocks (suc fuel) (label ∷ work) reachable = elim (mem_label label reachable) [
  | true ↦ mark_reachable blocks fuel work reachable
  | false ↦
      mark_reachable blocks fuel (push_all (block_targets (find_block label blocks)) work)
        (label ∷ reachable)
]

-- The blocks whose label is reachable, in order.
unfoldable pub keep_reachable : List String → List Block → List Block
unfolding mem_label
keep_reachable reachable [] = []
keep_reachable reachable (blk ∷ blocks) =
    let rest = keep_reachable reachable blocks in
    if mem_label blk.label reachable then blk ∷ rest else rest

abbrev pub prune_fuel : List Block → ℕ
prune_fuel blocks = 2 + 2 * length blocks

unfoldable pub prune_blocks : List Block → Option (List Block)
unfolding mark_reachable keep_reachable
prune_blocks [] = some []
prune_blocks (entry ∷ blocks) =
    elim (mark_reachable (entry ∷ blocks) (prune_fuel (entry ∷ blocks)) (entry.label ∷ []) []) [
      | none ↦ none
      | some reachable ↦ some (keep_reachable reachable (entry ∷ blocks))
    ]

unfoldable pub prune_unreachable : Function → Option Function
unfolding prune_blocks
prune_unreachable fn = elim (prune_blocks fn.blocks) [
  | none ↦ none
  | some blocks ↦ some (record fn { blocks = blocks })
]
