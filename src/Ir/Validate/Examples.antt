-- ===== src/Ir/Validate/Examples.antt =====
-- A valid function with a branch, and one that jumps to a label that it does not have.
use dast_lang.Ir.Bounds.Examples.{double, main}
use dast_lang.Ir.Inline.{inline_calls, collect_inline_candidates}
use dast_lang.Ir.Validate.Inlining.{inline_calls-valid}
use dast_lang.Base.{◌≤◌, String, List, [], ◌∷◌, some, ◌≡◌, refl, false}
use dast_lang.Ir.Bounds.Below.{BlocksBelow}
use dast_lang.Ir.Validate.{validate_function}
use dast_lang.Ir.Validate.Laws.{AllTargetsFound, validate_function-valid}
use dast_lang.Ir.Syntax.{
  const, temp, int, load_var, store_var, bin_op, lt, Instr, Term, branch, jump, return, Block,
  Function,
}

abbrev block_of : String → List Instr → Term → Block
block_of label instr term = record { label = label; instr = instr; term = term }

abbrev with_blocks : List Block → Function
with_blocks blocks = record {
  name = "f";
  params = record { name = "n"; type = "i64" } ∷ [];
  return_type = "i64";
  locals = [];
  temp_types = [];
  blocks = blocks;
  temp_count = 2;
}

abbrev looping : Function
looping = with_blocks (
    block_of "head" (load_var 0 "n" false false 0 ∷ bin_op 1 lt (temp 0) (const (int 9 "i64")) ∷ [])
      (branch (temp 1) "body" "exit")
    ∷ block_of "body" (store_var "n" (const (int 9 "i64")) false 0 ∷ []) (jump "head")
    ∷ block_of "exit" [] (return (some (temp 0)))
    ∷ [])

lost_result : validate_function (with_blocks (block_of "head" [] (jump "tail") ∷ [])) ≡ false
unfolding validate_function
lost_result = refl

validate_function-valid_example :
    BlocksBelow 2 looping.blocks × AllTargetsFound looping.blocks looping.blocks
unfolding validate_function
validate_function-valid_example = validate_function-valid looping refl

inline_calls-valid_example :
    (1 ≤ (inline_calls (collect_inline_candidates (("double", double) ∷ [])) main).temp_count)
    × BlocksBelow
        (inline_calls (collect_inline_candidates (("double", double) ∷ [])) main).temp_count
        (inline_calls (collect_inline_candidates (("double", double) ∷ [])) main).blocks
unfolding validate_function
inline_calls-valid_example =
    inline_calls-valid (("double", double) ∷ []) main (refl, (tt, (tt, tt)), tt) refl
