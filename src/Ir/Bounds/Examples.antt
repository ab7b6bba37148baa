-- ===== src/Ir/Bounds/Examples.antt =====
-- A function with one block inlined into another.
use dast_lang.Ir.Bounds.Inlined.{inline_calls-Below}
use dast_lang.Base.{String, ◌≤◌, List, [], ◌∷◌, some, ◌≡◌, refl, arith, false}
use dast_lang.Ir.Bounds.Below.{BlocksBelow}
use dast_lang.Ir.Syntax.{
  Instr, const, temp, int, load_var, store_var, bin_op, add, call, return, Block, Function,
}
use dast_lang.Ir.Inline.{InlineCandidate, inline_calls, collect_inline_candidates}

abbrev double_block : Block
double_block = record {
  label = "entry";
  instr = load_var 0 "n" false false 0 ∷ bin_op 1 add (temp 0) (temp 0) ∷ [];
  term = return (some (temp 1));
}

abbrev pub double : Function
double = record {
  name = "double";
  params = record { name = "n"; type = "i64" } ∷ [];
  return_type = "i64";
  locals = [];
  temp_types = [];
  blocks = double_block ∷ [];
  temp_count = 2;
}

abbrev main_block : List Instr → Block
main_block instr = record { label = "entry"; instr = instr; term = return (some (temp 0)) }

abbrev pub main : Function
main = record double {
  name = "main";
  params = [];
  blocks = main_block (call (some 0) "double" (const (int 21 "i64") ∷ []) ∷ []) ∷ [];
  temp_count = 1;
}

abbrev candidates : List (String × InlineCandidate)
candidates = ("double", record { fn = double; ret_op = some (temp 1) }) ∷ []

candidates_result : collect_inline_candidates (("double", double) ∷ []) ≡ candidates
unfolding collect_inline_candidates
candidates_result = refl

-- The temp 0 of `double` becomes the new temp 1, and its result the destination.
inlined_result : inline_calls candidates main ≡ record main {
  blocks =
      main_block (
        store_var "_inl0_n" (const (int 21 "i64")) false 0
        ∷ load_var 1 "_inl0_n" false false 0
        ∷ bin_op 0 add (temp 1) (temp 1)
        ∷ [])
      ∷ [];
  temp_count = 2;
}
unfolding inline_calls
inlined_result = refl

inline_calls-Below_example :
    (1 ≤ (inline_calls candidates main).temp_count)
    × BlocksBelow (inline_calls candidates main).temp_count (inline_calls candidates main).blocks
inline_calls-Below_example =
    inline_calls-Below candidates main
      (
        record {
          below = ((omega arith, tt), ((omega arith, omega arith, omega arith), tt));
          remapped = (tt, (tt, tt));
        },
        tt,
      )
      (((omega arith, (tt, tt)), tt), omega arith, tt)
