-- ===== src/Interp/Examples.antt =====
-- Folding and evaluation at concrete operands.
use dast_lang.Interp.Builtins.{builtin_push, builtin_pop, set_elems}
use dast_lang.Interp.PushPop.{builtin_pop-builtin_push}
use dast_lang.Interp.Refs.{load, array_at}
use dast_lang.Interp.Machine.{update, var_ref}
use dast_lang.Interp.Store.{array_value}
use dast_lang.Ir.Syntax.{array, ref, unit}
use dast_lang.Interp.PruneCalls.{prune_unreachable-call_function}
use dast_lang.Ir.Syntax.{
  store_var, add, temp, bin_op, jump, return, Value, const, load_var, Block, Function, call, int,
  bool, div, lt,
}
use dast_lang.Base.{
  Option, codes, String, [], ◌∷◌, List, ◌-◌, ◌+◌, ◌≡◌, refl, inl, none, some, true, false, arith,
}
use dast_lang.Interp.Call.{empty_store, call_function, new_frame, bind_params, Runtime}
use dast_lang.Interp.PruneSound.{prune_blocks-exec_frame}
use dast_lang.Interp.Exec.{exec_frame, Calls}
use dast_lang.Interp.Machine.{Store, Machine}
use dast_lang.Interp.Store.{undefined_function, err, Result, Objects, ok}
use dast_lang.Ir.Prune.{prune_blocks, prune_unreachable, find_block}
use dast_lang.Interp.Call.{run}
use dast_lang.Base.{runes_eq}
use dast_lang.Interp.Machine.{set_temp}
use dast_lang.Base.Int64.{add64}
use dast_lang.Base.Int64.{two63, div64}
use dast_lang.Interp.Arith.{eval_binary, is_unsigned_int_name, pick_int_type}
use dast_lang.Interp.FoldAgrees.{fold_binary-eval_binary, fold_binary-lt_unsigned}
use dast_lang.Ir.Fold.{fold_binary}

abbrev get_result : Result (Value × Store) → Option Value
get_result (ok (v, s)) = some v
get_result (err e) = none

abbrev no_objects : Objects
no_objects _ = none

-- -7 / 2 is -3.
fold_binary-eval_binary_example :
    eval_binary no_objects 1 div (int (two63 + two63 - 7) "i64") (int 2 "i64")
    ≡ ok (int (two63 + two63 - 3) "i64")
unfolding fold_binary is_unsigned_int_name pick_int_type div64
fold_binary-eval_binary_example =
    fold_binary-eval_binary no_objects 0 div (int (two63 + two63 - 7) "i64") (int 2 "i64") refl
      (inl refl)

fold_binary-lt_unsigned_example :
    (fold_binary lt (int 1 "u64") (int (two63 + 5) "u64") ≡ some (bool false))
    × (eval_binary no_objects 1 lt (int 1 "u64") (int (two63 + 5) "u64") ≡ ok (bool true))
unfolding is_unsigned_int_name
fold_binary-lt_unsigned_example =
    fold_binary-lt_unsigned no_objects 1 1 (two63 + 5) "u64" refl (omega arith) (omega arith)

-- A function that stores its parameter's double and returns it, with a block that nothing reaches.
abbrev entry : Block
entry = record {
  label = "entry";
  instr =
      load_var 1 "n" false false 0
      ∷ bin_op 2 add (temp 1) (temp 1)
      ∷ store_var "d" (temp 2) false 0
      ∷ [];
  term = jump "exit";
}

abbrev dead : Block
dead = record { label = "dead"; instr = []; term = jump "exit" }

abbrev exit : Block
exit = record {
  label = "exit";
  instr = load_var 3 "d" false false 0 ∷ [];
  term = return (some (temp 3));
}

abbrev double : Function
double = record {
  name = "double";
  params = record { name = "n"; type = "i64" } ∷ [];
  return_type = "i64";
  locals = [];
  temp_types = [];
  blocks = entry ∷ dead ∷ exit ∷ [];
  temp_count = 4;
}

abbrev main_entry : Block
main_entry = record {
  label = "entry";
  instr = call (some 0) "double" (const (int 21 "i64") ∷ []) ∷ [];
  term = return (some (temp 0));
}

abbrev main : Function
main = record {
  name = "main";
  params = [];
  return_type = "i64";
  locals = [];
  temp_types = [];
  blocks = main_entry ∷ dead ∷ [];
  temp_count = 1;
}

abbrev program : List (String × Function)
program = ("double", double) ∷ ("main", main) ∷ []

abbrev runtime : Runtime
runtime = record { functions = program; entry = "main"; builtins = λ _. none }

abbrev pruned_program : List (String × Function)
pruned_program =
    ("double", record double { blocks = entry ∷ exit ∷ [] })
    ∷ ("main", record main { blocks = main_entry ∷ [] })
    ∷ []

-- `main` calls `double` with 21.
main_returns : get_result (run runtime 10 "") ≡ some (int 42 "i64")
unfolding run eval_binary is_unsigned_int_name pick_int_type runes_eq set_temp add64
main_returns = refl

abbrev no_calls : Calls
no_calls name args s = err undefined_function

abbrev machine : Machine
machine =
    bind_params 0 double.params (int 4 "i64" ∷ [])
      (record { frame = new_frame double; store = empty_store })

prune_blocks-exec_frame_example :
    exec_frame no_calls 5 (entry ∷ exit ∷ []) 5 entry machine
    ≡ exec_frame no_calls 5 (entry ∷ dead ∷ exit ∷ []) 5 entry machine
unfolding find_block prune_blocks
prune_blocks-exec_frame_example =
    prune_blocks-exec_frame no_calls 5 5 entry (dead ∷ exit ∷ []) (entry ∷ exit ∷ []) machine refl
      refl

prune_unreachable-call_function_example :
    call_function (record runtime { functions = pruned_program }) 10 (codes "main") [] empty_store
    ≡ call_function (record runtime { functions = program }) 10 (codes "main") [] empty_store
unfolding find_block prune_unreachable
prune_unreachable-call_function_example =
    prune_unreachable-call_function program pruned_program runtime (refl, (refl, tt))
      (refl, refl, (refl, refl, tt)) 10 (codes "main") [] empty_store

-- A variable that holds an array of one element, and its address.
abbrev held : Store
held = record empty_store {
  cells = update empty_store.cells 0 (array (some 0));
  next_cell = 1;
  objects = update empty_store.objects 0 (array_value (int 5 "i64" ∷ []));
  next_object = 1;
  heap = update empty_store.heap 0 (var_ref 0);
  next_addr = 1;
}

abbrev pushed : Store
pushed = set_elems 0 (int 5 "i64" ∷ int 7 "i64" ∷ []) held

builtin_pop-builtin_push_example : builtin_pop 2 (ref 0 ∷ []) pushed ≡ ok (int 7 "i64", held)
unfolding builtin_push load array_at
builtin_pop-builtin_push_example = builtin_pop-builtin_push 2 0 (int 7 "i64") unit held pushed refl
