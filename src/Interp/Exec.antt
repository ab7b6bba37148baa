-- ===== src/Interp/Exec.antt =====
-- `execInstr` of compiler/stage0/internal/interp/instr.go, and `execFrame` of runtime.go. The count
-- of instructions, which only debugging prints, is left out.
use dast_lang.Interp.Store.{
  panic, struct_value, array_value, Result, ok, err, ◌>>=◌, type_error, undefined_variable,
  unknown_block, invalid_reference, out_of_fuel,
}
use text.Mathlib.Text.{◌==◌ as str_eq}
use dast_lang.Base.{
  ℕ, zero, suc, String, Bool, true, false, Option, none, some, List, [], ◌∷◌, ◌++◌, if◌then◌else◌,
  Runes, codes,
}
use dast_lang.Interp.Arith.{eval_binary, lookup_field}
use dast_lang.Interp.Machine.{
  RefTarget, var_ref, field_ref, index_ref, Store, Machine, write_cell, new_cell, new_object,
  alloc_ref, update_name, get_temp, put_temp, eval_operand, eval_operands,
}
use dast_lang.Interp.Refs.{
  found, struct_of, deref, store_ref, get_struct_field, set_struct_field, index_value,
  set_index_value, set_field_value,
}
use dast_lang.Ir.Prune.{find_block}
use dast_lang.Ir.Syntax.{
  Value, int, bool, string, unit, ref, struct, array, Operand, StructFieldInit, Instr, load_var,
  store_var, bin_op, call, call_closure, make_array, index, set_index, make_struct, get_field,
  field_addr, set_field, index_addr, Term, jump, branch, return, no_term, Block,
}

-- A call of the function of that name.
abbrev pub Calls : Type 0
Calls = Runes → List Value → Store → Result (Value × Store)

abbrev pub with_store : Machine → Store → Machine
with_store m s = record m { store = s }

-- `load_addr`: the address of a variable is allocated once in a frame.
abbrev pub load_addr_at : ℕ → String → ℕ → Machine → Option ℕ → Result Machine
load_addr_at dst name cell m (some addr) = ok (put_temp dst (ref addr) m)
load_addr_at dst name cell m none =
    let (addr, s) = alloc_ref (var_ref cell) m.store in
    ok (
      put_temp dst (ref addr) (record {
        frame = record (m.frame) { var_addrs = (name, addr) ∷ m.frame.var_addrs };
        store = s;
      }))

unfoldable pub lookup_addr : String → List (String × ℕ) → Option ℕ
lookup_addr name [] = none
lookup_addr name ((x, addr) ∷ addrs) = if str_eq x name then some addr else lookup_addr name addrs

unfoldable pub exec_load : ℕ → ℕ → String → Bool → Bool → ℕ → Machine → Result Machine
unfolding lookup_addr alloc_ref
exec_load fuel dst name addr true ref_temp m =
    get_temp m.frame.temps ref_temp >>= λ r. deref m.store fuel r >>= λ v. ok (put_temp dst v m)
exec_load fuel dst name true false ref_temp m =
    found (err undefined_variable) (m.frame.vars name) >>= λ cell.
    load_addr_at dst name cell m (lookup_addr name m.frame.var_addrs)
exec_load fuel dst name false false ref_temp m =
    found (err undefined_variable) (m.frame.vars name) >>= λ cell.
    found (err panic) (m.store.cells cell) >>= λ v. ok (put_temp dst v m)

-- A new variable takes a new cell.
abbrev pub store_name : String → Value → Machine → Option ℕ → Machine
store_name name v m (some cell) = with_store m (write_cell cell v m.store)
store_name name v m none =
    let (cell, s) = new_cell v m.store in
    record { frame = record (m.frame) { vars = update_name m.frame.vars name cell }; store = s }

unfoldable pub exec_store : ℕ → String → Operand → Bool → ℕ → Machine → Result Machine
exec_store fuel name src true ref_temp m = get_temp m.frame.temps ref_temp >>= λ r.
    eval_operand m src >>= λ v. store_ref m.store fuel r v >>= λ s. ok (with_store m s)
exec_store fuel name src false ref_temp m =
    eval_operand m src >>= λ v. ok (store_name name v m (m.frame.vars name))

-- The result of a call, where it is wanted.
abbrev pub put_result : Option ℕ → Machine → Value × Store → Machine
put_result none m (v, s) = with_store m s
put_result (some dst) m (v, s) = put_temp dst v (with_store m s)

-- The function and the environment of a closure.
abbrev pub closure_func : Option Value → Result Runes
closure_func (some (string name)) = ok name
closure_func _ = err type_error

abbrev pub closure_of : ℕ × String × List (String × Value) → Result (Runes × Value)
closure_of (p, name, fields) = closure_func (lookup_field "func" fields) >>= λ func.
    found (err type_error) (lookup_field "env" fields) >>= λ env. ok (func, env)

-- `fields[f.Name] = val`: a later field of the same name replaces the value.
abbrev put_field : String → Value → List (String × Value) → List (String × Value)
put_field name v fields = elim (lookup_field name fields) [
  | none ↦ fields ++ (name, v) ∷ []
  | some _ ↦ set_field_value name v fields
]

abbrev pub eval_fields :
    Machine → List StructFieldInit → List (String × Value) → Result (List (String × Value))
eval_fields m [] fields = ok fields
eval_fields m (f ∷ inits) fields =
    eval_operand m f.src >>= λ v. eval_fields m inits (put_field f.name v fields)

abbrev pub target_of : Store → Value → Result RefTarget
target_of s (ref a) = found (err invalid_reference) (s.heap a)
target_of s _ = err type_error

abbrev pub index_of : Value → Result ℕ
index_of (int i _) = ok i
index_of _ = err type_error

abbrev pub put_ref : ℕ → RefTarget → Machine → Machine
put_ref dst target m =
    let (addr, s) = alloc_ref target m.store in put_temp dst (ref addr) (with_store m s)

-- `fuel` bounds the depth of references and of compared values.
unfoldable pub exec_instr : Calls → ℕ → Instr → Machine → Result Machine
unfolding exec_load exec_store alloc_ref
exec_instr calls fuel (load_var dst name addr is_ref ref_temp) m =
    exec_load fuel dst name addr is_ref ref_temp m
exec_instr calls fuel (store_var name src is_ref ref_temp) m =
    exec_store fuel name src is_ref ref_temp m
exec_instr calls fuel (bin_op dst op lhs rhs) m = eval_operand m lhs >>= λ l.
    eval_operand m rhs >>= λ r.
    eval_binary m.store.objects fuel op l r >>= λ v. ok (put_temp dst v m)
exec_instr calls fuel (call dst callee args) m = eval_operands m args >>= λ vs.
    calls (codes callee) vs m.store >>= λ res. ok (put_result dst m res)
exec_instr calls fuel (call_closure dst closure args) m = eval_operand m closure >>= λ c.
    struct_of m.store c >>= λ o. closure_of o >>= λ f.
    eval_operands m args >>= λ vs. calls f.0 (f.1 ∷ vs) m.store >>= λ res. ok (put_result dst m res)
exec_instr calls fuel (make_struct dst name fields) m = eval_fields m fields [] >>= λ vs.
    let (p, s) = new_object (struct_value name vs) m.store in
    ok (put_temp dst (struct (some p)) (with_store m s))
exec_instr calls fuel (make_array dst elems) m = eval_operands m elems >>= λ vs.
    let (p, s) = new_object (array_value vs) m.store in
    ok (put_temp dst (array (some p)) (with_store m s))
exec_instr calls fuel (index unchecked dst base idx) m = eval_operand m base >>= λ b.
    eval_operand m idx >>= λ i.
    index_value unchecked m.store fuel b i >>= λ v. ok (put_temp dst v m)
exec_instr calls fuel (set_index unchecked base idx src) m = eval_operand m base >>= λ b.
    eval_operand m idx >>= λ i. eval_operand m src >>= λ v.
    set_index_value unchecked m.store fuel b i v >>= λ s. ok (with_store m s)
exec_instr calls fuel (get_field dst src field) m = get_temp m.frame.temps src >>= λ v.
    get_struct_field m.store fuel v field >>= λ w. ok (put_temp dst w m)
exec_instr calls fuel (field_addr dst src field) m = get_temp m.frame.temps src >>= λ v.
    target_of m.store v >>= λ base. ok (put_ref dst (field_ref base field) m)
exec_instr calls fuel (set_field src field value) m = get_temp m.frame.temps src >>= λ v.
    eval_operand m value >>= λ w.
    set_struct_field m.store fuel v field w >>= λ s. ok (with_store m s)
exec_instr calls fuel (index_addr dst base idx) m = get_temp m.frame.temps base >>= λ v.
    target_of m.store v >>= λ target.
    eval_operand m idx >>= λ w. index_of w >>= λ i. ok (put_ref dst (index_ref target i) m)

unfoldable pub exec_instrs : Calls → ℕ → List Instr → Machine → Result Machine
unfolding exec_instr
exec_instrs calls fuel [] m = ok m
exec_instrs calls fuel (inst ∷ instrs) m =
    exec_instr calls fuel inst m >>= λ m'. exec_instrs calls fuel instrs m'

-- Where control goes behind a block.
pub data Exit : Type 0 where
  goto : (label : String) → Exit
  finish : Value → Exit

abbrev pub branch_on : Value → String → String → Result Exit
branch_on (bool b) then_target else_target = ok (goto (if b then then_target else else_target))
branch_on _ then_target else_target = err type_error

unfoldable pub exec_term : Term → Machine → Result Exit
exec_term no_term m = ok (finish unit)
exec_term (jump target) m = ok (goto target)
exec_term (branch cond then_target else_target) m =
    eval_operand m cond >>= λ v. branch_on v then_target else_target
exec_term (return none) m = ok (finish unit)
exec_term (return (some op)) m = eval_operand m op >>= λ v. ok (finish v)

unfoldable pub exec_block : Calls → ℕ → Block → Machine → Result (Machine × Exit)
unfolding exec_instrs exec_term
exec_block calls fuel blk m =
    exec_instrs calls fuel blk.instr m >>= λ m'. exec_term blk.term m' >>= λ e. ok (m', e)

-- `execFrame`: the loop over blocks, one round of fuel for each; `fr.blocks` is `find_block`.
unfoldable pub exec_frame : Calls → ℕ → List Block → ℕ → Block → Machine → Result (Machine × Value)
unfolding exec_block find_block
exec_frame calls fuel blocks zero blk m = err out_of_fuel
exec_frame calls fuel blocks (suc rounds) blk m = elim (exec_block calls fuel blk m) [
  | err e ↦ err e
  | ok (m', exit) ↦ elim exit [
    | finish v ↦ ok (m', v)
    | goto label ↦ elim (find_block label blocks) [
      | none ↦ err unknown_block
      | some next ↦ exec_frame calls fuel blocks rounds next m'
    ]
  ]
]
