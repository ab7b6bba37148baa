-- ===== src/Interp/Call.antt =====
-- `Runtime`, `Run`, `callFunction` and `freeFrame` of
-- compiler/stage0/internal/interp/runtime.go. The table `Builtins` is a field of the runtime, as it
-- is in the source. After an error the store is not looked at any more.
use text.Mathlib.Text.{◌==◌ as str_eq}
use dast_lang.Base.{
  ℕ, zero, suc, ◌+◌, String, Option, none, some, List, [], ◌∷◌, ◌==◌, not, if◌then◌else◌, length,
  Bool, false, ◌||◌, Runes, codes, runes_eq,
}
use dast_lang.Interp.Exec.{Calls, exec_frame}
use dast_lang.Interp.Machine.{Store, Frame, Machine, put_temp, new_cell, update_name, zero_value}
use dast_lang.Interp.Store.{
  Result, ok, err, ◌>>=◌, undefined_function, wrong_arity, out_of_fuel, failure,
}
use dast_lang.Ir.Syntax.{Value, unit, Block, Function, Var}

pub record Runtime : Type 0 where
  pub functions : List (String × Function)
  pub entry : String
  pub builtins : Runes → Option (List Value → Store → Result (Value × Store))

-- `rt.Prog.Functions[name]`.
unfoldable pub find_function : Runes → List (String × Function) → Option Function
find_function name [] = none
find_function name ((key, fn) ∷ fns) =
    if runes_eq (codes key) name then some fn else find_function name fns

abbrev pub zero_values : ℕ → List Value
zero_values zero = []
zero_values (suc n) = zero_value ∷ zero_values n

abbrev pub new_frame : Function → Frame
new_frame fn = record { vars = λ _. none; var_addrs = []; temps = zero_values fn.temp_count }

abbrev pub bind_param : ℕ → String → Value → Machine → Machine
bind_param i name v m =
    let m' = put_temp i v m in
    let (cell, s) = new_cell v m'.store in
    record { frame = record (m'.frame) { vars = update_name m'.frame.vars name cell }; store = s }

-- The loop on the arguments: a parameter is both a temp and a variable.
abbrev pub bind_params : ℕ → List Var → List Value → Machine → Machine
bind_params i (p ∷ params) (v ∷ args) m = bind_params (i + 1) params args (bind_param i p.name v m)
bind_params i _ _ m = m

abbrev pub mem_addr : ℕ → List (String × ℕ) → Bool
mem_addr q [] = false
mem_addr q ((name, addr) ∷ addrs) = addr == q || mem_addr q addrs

-- `freeFrame`.
unfoldable pub free_frame : Frame → Store → Store
free_frame fr s = record s { heap = λ q. if mem_addr q fr.var_addrs then none else s.heap q }

abbrev pub leave : Machine × Value → Result (Value × Store)
leave (m, v) = ok (v, free_frame m.frame m.store)

abbrev pub call_blocks :
    Calls → ℕ → Function → List Value → Store → List Block → Result (Value × Store)
call_blocks calls fuel fn args s [] = ok (unit, s)
call_blocks calls fuel fn args s (entry ∷ blocks) =
    exec_frame calls fuel (entry ∷ blocks) fuel entry
      (bind_params 0 fn.params args (record { frame = new_frame fn; store = s }))
    >>= leave

abbrev pub call_body : Calls → ℕ → Function → List Value → Store → Result (Value × Store)
call_body calls fuel fn args s =
    if not (length args == length fn.params)
    then err wrong_arity
    else call_blocks calls fuel fn args s fn.blocks

abbrev pub call_found : Calls → ℕ → List Value → Store → Option Function → Result (Value × Store)
call_found calls fuel args s none = err undefined_function
call_found calls fuel args s (some fn) = call_body calls fuel fn args s

-- `callFunction`: `fuel` bounds the depth of calls, and the rounds and references in each.
unfoldable pub call_function : Runtime → ℕ → Calls
unfolding find_function free_frame exec_frame
call_function rt zero name args s = err out_of_fuel
call_function rt (suc fuel) name args s = elim (rt.builtins name) [
  | some builtin ↦ builtin args s
  | none ↦
      call_found (λ n vs t. call_function rt fuel n vs t) fuel args s
        (find_function name rt.functions)
]

abbrev pub empty_store : Store
empty_store = record {
  cells = λ _. none;
  next_cell = 0;
  objects = λ _. none;
  next_object = 0;
  heap = λ _. none;
  next_addr = 0;
}

abbrev pub run_entry : Runtime → ℕ → String → Result (Value × Store)
run_entry rt fuel entry =
    if str_eq entry ""
    then err (failure "no entry function")
    else call_function rt fuel (codes entry) [] empty_store

-- `Run`.
unfoldable pub run : Runtime → ℕ → String → Result (Value × Store)
unfolding call_function
run rt fuel entry = run_entry rt fuel (if str_eq entry "" then rt.entry else entry)
