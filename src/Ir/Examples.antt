-- ===== src/Ir/Examples.antt =====
-- The optimiser on small functions.
use dast_lang.Base.{◌≡◌, refl, some, List, [], ◌∷◌, true}
use dast_lang.Ir.Prune.{prune_blocks}
use dast_lang.Ir.Pruned.{IsPruned, prune_blocks-IsPruned}
use dast_lang.Ir.Syntax.{Block, Value, Operand, Term}

abbrev entry : Block
entry = record { label = "entry"; instr = []; term = Term.jump "loop" }

abbrev loop : Block
loop = record {
  label = "loop";
  instr = [];
  term = Term.branch (Operand.const (Value.bool true)) "loop" "exit";
}

abbrev dead : Block
dead = record { label = "dead"; instr = []; term = Term.jump "exit" }

abbrev exit : Block
exit = record { label = "exit"; instr = []; term = Term.no_term }

dead_is_pruned : prune_blocks (entry ∷ dead ∷ loop ∷ exit ∷ []) ≡ some (entry ∷ loop ∷ exit ∷ [])
unfolding prune_blocks
dead_is_pruned = refl

prune_blocks-IsPruned_example :
    (kept : List Block) × (prune_blocks (entry ∷ dead ∷ loop ∷ exit ∷ []) ≡ some kept)
    × IsPruned entry (dead ∷ loop ∷ exit ∷ []) kept
prune_blocks-IsPruned_example = prune_blocks-IsPruned entry (dead ∷ loop ∷ exit ∷ [])
