-- ===== src/Interp/OptimizeExamples.antt =====
-- The pass over blocks on a small function.
use dast_lang.Ir.Prune.{prune_unreachable}
use dast_lang.Ir.Inline.{collect_inline_candidates, inline_calls}
use dast_lang.Base.{String}
use dast_lang.Ir.Passes.{optimize_total}
use dast_lang.Ir.BlockPass.{optimize}
use dast_lang.Interp.OptimizeProgram.{optimize-call_function}
use dast_lang.Base.{codes, runes_eq}
use dast_lang.Ir.Syntax.{Function}
use dast_lang.Interp.Call.{Runtime, call_function}
use dast_lang.Interp.OptimizeCalls.{optimize_blocks-call_function, program_optimized}
use dast_lang.Base.{[], ◌∷◌, none, some, List, false, true, refl, ◌≡◌, arith}
use dast_lang.Base.Int64.{lt64}
use dast_lang.Interp.Arith.{is_unsigned_int_name, eval_binary}
use dast_lang.Interp.Call.{empty_store}
use dast_lang.Interp.ConstsHold.{OwnsCells}
use dast_lang.Interp.ConstsSound.{CallsGrow, optimize_block-exec_term}
use dast_lang.Interp.Exec.{Calls, exec_frame, exec_instrs, exec_term}
use dast_lang.Interp.Refs.{index_value}
use dast_lang.Interp.Machine.{Machine, update, set_temp}
use dast_lang.Interp.OptimizeSound.{optimize_blocks-exec_frame}
use dast_lang.Interp.Store.{ok, err, undefined_function, array_value}
use dast_lang.Ir.BlockPass.{optimize_block, optimize_blocks}
use dast_lang.Ir.Syntax.{
  Block, int, bool, array, temp, const, bin_op, lt, make_array, index, jump, branch, return,
}

abbrev start : Block
start = record {
  label = "start";
  instr = bin_op 0 lt (const (int 1 "i64")) (const (int 2 "i64")) ∷ [];
  term = branch (temp 0) "yes" "no";
}

abbrev yes : Block
yes = record {
  label = "yes";
  instr =
      make_array 1 (const (int 5 "i64") ∷ []) ∷ index false 2 (temp 1) (const (int 0 "i64")) ∷ [];
  term = return (some (temp 2));
}

abbrev no : Block
no = record { label = "no"; instr = []; term = return none }

abbrev blocks : List Block
blocks = start ∷ yes ∷ no ∷ []

-- The branch is decided and the bounds check is dropped.
blocks_optimized :
    optimize_blocks blocks
    ≡ record start { term = jump "yes" }
      ∷ record yes {
        instr =
            make_array 1 (const (int 5 "i64") ∷ [])
            ∷ index true 2 (temp 1) (const (int 0 "i64"))
            ∷ [];
      }
      ∷ no
      ∷ []
unfolding optimize_block lt64
blocks_optimized = refl

abbrev no_calls : Calls
no_calls name args s = err undefined_function

no_calls-CallsGrow : CallsGrow no_calls
no_calls-CallsGrow name args s s' v e = absurd (ground arith)

abbrev idle : Machine
idle = record {
  frame = record { vars = λ _. none; var_addrs = []; temps = [] };
  store = empty_store;
}

idle-OwnsCells : OwnsCells idle
idle-OwnsCells = record {
  apart = λ x y cell e f. absurd (ground arith);
  taken = λ x cell e. absurd (ground arith);
}

abbrev compared : Machine
compared = record idle { frame = record (idle.frame) { temps = bool true ∷ [] } }

abbrev done : Machine
done = record {
  frame = record (idle.frame) { temps = bool true ∷ array (some 0) ∷ int 5 "i64" ∷ [] };
  store = record empty_store {
    objects = update empty_store.objects 0 (array_value (int 5 "i64" ∷ []));
    next_object = 1;
  };
}

optimize_block-exec_term_example :
    exec_term ((optimize_block start).term) compared ≡ exec_term start.term compared
unfolding exec_instrs eval_binary is_unsigned_int_name set_temp lt64
optimize_block-exec_term_example =
    optimize_block-exec_term no_calls 0 start idle compared no_calls-CallsGrow idle-OwnsCells
      ((refl, refl), tt) refl

optimize_blocks-exec_frame_example :
    exec_frame no_calls 5 (optimize_blocks blocks) 5 (optimize_block start) idle
    ≡ ok (done, int 5 "i64")
unfolding exec_frame eval_binary is_unsigned_int_name set_temp lt64 index_value
optimize_blocks-exec_frame_example =
    optimize_blocks-exec_frame no_calls 4 5 blocks start idle (done, int 5 "i64") no_calls-CallsGrow
      idle-OwnsCells ((refl, refl), tt) (((refl, refl), tt), ((tt, (tt, tt)), (tt, tt))) refl

abbrev pick : Function
pick = record {
  name = "pick";
  params = [];
  return_type = "i64";
  locals = [];
  temp_types = [];
  blocks = blocks;
  temp_count = 3;
}

abbrev runtime : Runtime
runtime = record { functions = ("pick", pick) ∷ []; entry = "pick"; builtins = λ _. none }

optimize_blocks-call_function_example :
    call_function
      (record runtime { functions = program_optimized (("pick", pick) ∷ []) })
      9
      (codes "pick")
      []
      empty_store
    ≡ ok (int 5 "i64", done.store)
unfolding call_function exec_frame eval_binary is_unsigned_int_name set_temp lt64 index_value
    runes_eq
optimize_blocks-call_function_example =
    optimize_blocks-call_function (("pick", pick) ∷ []) runtime
      ((((refl, refl), tt), ((tt, (tt, tt)), (tt, tt))), tt)
      (λ name builtin args s s' v h e. absurd (ground arith)) 9 (codes "pick") [] empty_store
      (int 5 "i64", done.store) refl

-- The decided branch leaves the block `no` without a way to it.
abbrev pick_optimized : Function
pick_optimized = record pick {
  blocks =
      record start { term = jump "yes" }
      ∷ record yes {
        instr =
            make_array 1 (const (int 5 "i64") ∷ [])
            ∷ index true 2 (temp 1) (const (int 0 "i64"))
            ∷ [];
      }
      ∷ [];
}

optimize-call_function_example :
    call_function
      (record runtime { functions = ("pick", pick_optimized) ∷ [] })
      9
      (codes "pick")
      []
      empty_store
    ≡ ok (int 5 "i64", done.store)
unfolding call_function optimize eval_binary is_unsigned_int_name set_temp lt64 index_value runes_eq
    collect_inline_candidates prune_unreachable inline_calls
optimize-call_function_example =
    optimize-call_function (("pick", pick) ∷ []) (("pick", pick_optimized) ∷ []) runtime refl refl
      (refl, tt) ((((refl, refl), tt), ((tt, (tt, tt)), (tt, tt))), tt)
      (λ name builtin args s s' v h e. absurd (ground arith)) 9 (codes "pick") [] empty_store
      (int 5 "i64", done.store) refl

optimize_total_example :
    (fns : List (String × Function)) × (optimize (("pick", pick) ∷ []) ≡ some fns)
optimize_total_example = optimize_total (("pick", pick) ∷ [])
