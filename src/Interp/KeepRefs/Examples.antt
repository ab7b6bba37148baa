-- ===== src/Interp/KeepRefs/Examples.antt =====
-- A call that takes the address of a variable of its own, on a store that has a reference.
use dast_lang.Interp.Refs.{deref}
use dast_lang.Base.{
  runes_eq, ◌≡◌, [], ◌∷◌, none, some, codes, if◌then◌else◌, true, false, refl, ◌==◌,
}
use dast_lang.Interp.Store.{Result, ok}
use dast_lang.Interp.Machine.{Store, set_temp, var_ref, alloc_ref}
use dast_lang.Interp.Call.{Runtime, call_function, empty_store}
use dast_lang.Interp.Exec.{exec_frame}
use dast_lang.Ir.Syntax.{Value, int, temp, const, store_var, load_var, return, Block, Function}

abbrev entry : Block
entry = record {
  label = "entry";
  instr =
      store_var "x" (const (int 7 "i64")) false 0
      ∷ load_var 0 "x" true false 0
      ∷ load_var 1 "x" false true 0
      ∷ [];
  term = return (some (temp 1));
}

abbrev main : Function
main = record {
  name = "main";
  params = [];
  return_type = "i64";
  locals = [];
  temp_types = [];
  blocks = entry ∷ [];
  temp_count = 2;
}

abbrev runtime : Runtime
runtime = record { functions = ("main", main) ∷ []; entry = "main"; builtins = λ name. none }

-- A variable, and a reference to it at the address 0.
abbrev before : Store
before = record empty_store {
  cells = λ c. if c == 0 then some (int 3 "i64") else none;
  next_cell = 1;
  heap = λ a. if a == 0 then some (var_ref 0) else none;
  next_addr = 1;
}

abbrev left_store : Result (Value × Store) → Store
left_store (ok (v, s)) = s
left_store _ = empty_store

abbrev after : Store
unfolding call_function
after = left_store (call_function runtime 9 (codes "main") [] before)

-- The address that the call took is gone.
own_freed : after.heap 1 ≡ none
unfolding call_function exec_frame set_temp alloc_ref runes_eq deref
own_freed = refl
