-- ===== src/Interp/CallsGrow.antt =====
-- The cells of variables, which Go's collector alone takes back: a call of
-- compiler/stage0/internal/interp/runtime.go takes cells and gives none back.
use dast_lang.Interp.Call.{
  bind_param, Runtime, call_function, call_body, call_blocks, bind_params, new_frame, free_frame,
  find_function,
}
use dast_lang.Base.{
  ap, inr, inl, Option-cases, Bool-cases, ◌∷◌, true, [], Option, suc, zero, none, arith, false,
  some, String, ◌≡◌, List, ℕ, ◌≤◌, Runes, codes, ◌+◌, not, length, ◌==◌,
}
use dast_lang.Interp.Arith.{eval_binary}
use dast_lang.Interp.ConstsHold.{bind-ok, ok-injective}
use dast_lang.Interp.ConstsSound.{CallsGrow}
use dast_lang.Interp.Exec.{
  Calls, exec_load, exec_store, exec_instr, exec_instrs, exec_term, exec_block, exec_frame,
  eval_fields, goto, finish, Exit, lookup_addr, load_addr_at, put_result, store_name, closure_of,
  target_of, index_of,
}
use dast_lang.Interp.KeepCells.{
  set_struct_field-SameCells, set_index_value-SameCells, store_ref-next_cell,
}
use dast_lang.Interp.Machine.{Machine, Store, alloc_ref, get_temp, eval_operand, eval_operands}
use dast_lang.Interp.PruneSound.{Result-cases}
use dast_lang.Interp.Refs.{
  found, deref, store_ref, get_struct_field, set_struct_field, index_value, set_index_value,
  struct_of,
}
use dast_lang.Interp.Store.{Result, ok, err, undefined_variable, panic}
use dast_lang.Ir.Prune.{find_block}
use dast_lang.Ir.Syntax.{
  Value, Instr, load_var, store_var, bin_op, call, call_closure, make_array, index, set_index,
  make_struct, get_field, field_addr, set_field, index_addr, Block, Var, Function,
}
use mathlib.Core.Path.{subst}

abbrev pub Grows : Machine → Machine → Type 0
Grows m m' = m.store.next_cell ≤ m'.store.next_cell

grown :
    (m n : Machine) {m' : Machine}
    → ok n ≡ ok m'
    → m.store.next_cell ≤ n.store.next_cell
    → Grows m m'
grown m n e le = subst (Grows m) (ok-injective e) le

store_name-Grows :
    (name : String) (v : Value) (m : Machine) (cell : Option ℕ) → Grows m (store_name name v m cell)
store_name-Grows name v m (some cell) = omega arith
store_name-Grows name v m none = omega arith

load_addr_at-Grows :
    (dst : ℕ) (name : String) (cell : ℕ) (m : Machine) (addr : Option ℕ) {m' : Machine}
    → load_addr_at dst name cell m addr ≡ ok m'
    → Grows m m'
unfolding alloc_ref
load_addr_at-Grows dst name cell m (some addr) e = grown m _ e (omega arith)
load_addr_at-Grows dst name cell m none e = grown m _ e (omega arith)

put_result-Grows :
    (dst : Option ℕ) (m : Machine) (res : Value × Store) {m' : Machine}
    → ok (put_result dst m res) ≡ ok m'
    → m.store.next_cell ≤ res.1.next_cell
    → Grows m m'
put_result-Grows none m res e le = grown m _ e le
put_result-Grows (some dst) m res e le = grown m _ e le

module _ (calls : Calls) (grow : CallsGrow calls) (fuel : ℕ) where
  exec_instr-Grows :
      (inst : Instr) (m : Machine) {m' : Machine}
      → exec_instr calls fuel inst m ≡ ok m'
      → Grows m m'
  unfolding exec_instr exec_load exec_store alloc_ref
  exec_instr-Grows (load_var dst name addr true r) m e =
      let (a, g, k) = bind-ok (get_temp m.frame.temps r) _ e in
      let (v, g', k') = bind-ok (deref m.store fuel a) _ k in grown m _ k' (omega arith)
  exec_instr-Grows (load_var dst name true false r) m e =
      let (cell, g, k) = bind-ok (found (err undefined_variable) (m.frame.vars name)) _ e in
      load_addr_at-Grows dst name cell m (lookup_addr name m.frame.var_addrs) k
  exec_instr-Grows (load_var dst name false false r) m e =
      let (cell, g, k) = bind-ok (found (err undefined_variable) (m.frame.vars name)) _ e in
      let (v, g', k') = bind-ok (found (err panic) (m.store.cells cell)) _ k in
      grown m _ k' (omega arith)
  exec_instr-Grows (store_var name src true r) m e =
      let (a, g, k) = bind-ok (get_temp m.frame.temps r) _ e in
      let (v, g', k') = bind-ok (eval_operand m src) _ k in
      let (s, g'', k'') = bind-ok (store_ref m.store fuel a v) _ k' in
      grown m _ k'' (omega (arith, store_ref-next_cell m.store s fuel a v g''))
  exec_instr-Grows (store_var name src false r) m e =
      let (v, g, k) = bind-ok (eval_operand m src) _ e in
      grown m _ k (store_name-Grows name v m (m.frame.vars name))
  exec_instr-Grows (bin_op dst op lhs rhs) m e =
      let (l, g, k) = bind-ok (eval_operand m lhs) _ e in
      let (r, g', k') = bind-ok (eval_operand m rhs) _ k in
      let (v, g'', k'') = bind-ok (eval_binary m.store.objects fuel op l r) _ k' in
      grown m _ k'' (omega arith)
  exec_instr-Grows (call dst callee args) m e =
      let (vs, g, k) = bind-ok (eval_operands m args) _ e in
      let (res, g', k') = bind-ok (calls (codes callee) vs m.store) _ k in
      put_result-Grows dst m res k' (grow (codes callee) vs m.store res.1 res.0 g')
  exec_instr-Grows (call_closure dst closure args) m e =
      let (c, g, k) = bind-ok (eval_operand m closure) _ e in
      let (o, g1, k1) = bind-ok (struct_of m.store c) _ k in
      let (f, g2, k2) = bind-ok (closure_of o) _ k1 in
      let (vs, g3, k3) = bind-ok (eval_operands m args) _ k2 in
      let (res, g4, k4) = bind-ok (calls f.0 (f.1 ∷ vs) m.store) _ k3 in
      put_result-Grows dst m res k4 (grow f.0 (f.1 ∷ vs) m.store res.1 res.0 g4)
  exec_instr-Grows (make_array dst elems) m e =
      let (vs, g, k) = bind-ok (eval_operands m elems) _ e in grown m _ k (omega arith)
  exec_instr-Grows (make_struct dst name fields) m e =
      let (vs, g, k) = bind-ok (eval_fields m fields []) _ e in grown m _ k (omega arith)
  exec_instr-Grows (index unchecked dst base idx) m e =
      let (b, g, k) = bind-ok (eval_operand m base) _ e in
      let (i, g', k') = bind-ok (eval_operand m idx) _ k in
      let (v, g'', k'') = bind-ok (index_value unchecked m.store fuel b i) _ k' in
      grown m _ k'' (omega arith)
  exec_instr-Grows (set_index unchecked base idx src) m e =
      let (b, g, k) = bind-ok (eval_operand m base) _ e in
      let (i, g', k') = bind-ok (eval_operand m idx) _ k in
      let (v, p, l) = bind-ok (eval_operand m src) _ k' in
      let (s, p', l') = bind-ok (set_index_value unchecked m.store fuel b i v) _ l in
      grown m _ l' (omega (arith, (set_index_value-SameCells unchecked m.store s fuel b i v p').1))
  exec_instr-Grows (get_field dst src field) m e =
      let (v, g, k) = bind-ok (get_temp m.frame.temps src) _ e in
      let (w, g', k') = bind-ok (get_struct_field m.store fuel v field) _ k in
      grown m _ k' (omega arith)
  exec_instr-Grows (set_field src field value) m e =
      let (v, g, k) = bind-ok (get_temp m.frame.temps src) _ e in
      let (w, g', k') = bind-ok (eval_operand m value) _ k in
      let (s, g'', k'') = bind-ok (set_struct_field m.store fuel v field w) _ k' in
      grown m _ k'' (omega (arith, (set_struct_field-SameCells m.store s fuel v field w g'').1))
  exec_instr-Grows (field_addr dst src field) m e =
      let (v, g, k) = bind-ok (get_temp m.frame.temps src) _ e in
      let (base, g', k') = bind-ok (target_of m.store v) _ k in grown m _ k' (omega arith)
  exec_instr-Grows (index_addr dst base idx) m e =
      let (v, g, k) = bind-ok (get_temp m.frame.temps base) _ e in
      let (target, g1, k1) = bind-ok (target_of m.store v) _ k in
      let (w, g2, k2) = bind-ok (eval_operand m idx) _ k1 in
      let (i, g3, k3) = bind-ok (index_of w) _ k2 in grown m _ k3 (omega arith)

  exec_instrs-Grows :
      (instrs : List Instr) (m : Machine) {m' : Machine}
      → exec_instrs calls fuel instrs m ≡ ok m'
      → Grows m m'
  unfolding exec_instrs
  exec_instrs-Grows [] m e = grown m m e (omega arith)
  exec_instrs-Grows (inst ∷ instrs) m e =
      let (n, g, k) = bind-ok (exec_instr calls fuel inst m) _ e in
      omega (arith, exec_instr-Grows inst m g, exec_instrs-Grows instrs n k)

  exec_block-Grows :
      (blk : Block) (m m' : Machine) {exit : Exit}
      → exec_block calls fuel blk m ≡ ok (m', exit)
      → Grows m m'
  unfolding exec_block
  exec_block-Grows blk m m' e =
      let (n, g, k) = bind-ok (exec_instrs calls fuel blk.instr m) _ e in
      let (x, g', k') = bind-ok (exec_term blk.term n) _ k in
      subst (Grows m) (ap (λ r. r.0) (ok-injective k')) (exec_instrs-Grows blk.instr m g)

  exec_frame-Grows :
      (blocks : List Block) (rounds : ℕ) (blk : Block) (m m' : Machine) {v : Value}
      → exec_frame calls fuel blocks rounds blk m ≡ ok (m', v)
      → Grows m m'
  unfolding exec_frame
  exec_frame-Grows blocks zero blk m m' e = absurd (ground arith)
  exec_frame-Grows blocks (suc rounds) blk m m' {v = v} e =
      elim (Result-cases (exec_block calls fuel blk m)) [
        | inr (x, h) ↦ absurd (ground arith)
        | inl ((n, finish w), h) ↦
            let same : ◌≡◌ {A = Result (Machine × Value)} (ok (n, w)) (ok (m', v)) = ground arith in
            subst (Grows m) (ap (λ r. r.0) (ok-injective same)) (exec_block-Grows blk m n h)
        | inl ((n, goto label), h) ↦ elim (Option-cases (find_block label blocks)) [
          | inl none_there ↦ absurd (ground arith)
          | inr (next, there) ↦ omega (
            arith,
            exec_block-Grows blk m n h,
            exec_frame-Grows blocks rounds next n m' {v = v} (ground arith),
          )
        ]
      ]

bind_params-Grows :
    (i : ℕ) (params : List Var) (args : List Value) (m : Machine)
    → Grows m (bind_params i params args m)
bind_params-Grows i [] args m = omega arith
bind_params-Grows i (p ∷ params) [] m = omega arith
bind_params-Grows i (p ∷ params) (v ∷ args) m =
    omega (arith, bind_params-Grows (i + 1) params args (bind_param i p.name v m))

call_blocks-Grows :
    (calls : Calls) (fuel : ℕ) (fn : Function) (args : List Value) (s s' : Store) (v : Value)
    (blocks : List Block)
    → CallsGrow calls
    → call_blocks calls fuel fn args s blocks ≡ ok (v, s')
    → s.next_cell ≤ s'.next_cell
unfolding free_frame
call_blocks-Grows calls fuel fn args s s' v [] grow e =
    subst (λ t. s.next_cell ≤ t.next_cell) (ap (λ r. r.1) (ok-injective e)) (omega arith)
call_blocks-Grows calls fuel fn args s s' v (entry ∷ blocks) grow e =
    let m = bind_params 0 fn.params args (record { frame = new_frame fn; store = s }) in
    let ((n, w), g, k) = bind-ok (exec_frame calls fuel (entry ∷ blocks) fuel entry m) _ e in
    subst (λ t. s.next_cell ≤ t.next_cell) (ap (λ r. r.1) (ok-injective k))
      (omega (
        arith,
        bind_params-Grows 0 fn.params args (record { frame = new_frame fn; store = s }),
        exec_frame-Grows calls grow fuel (entry ∷ blocks) fuel entry m n g,
      ))

call_body-CallsGrow :
    (calls : Calls) (fuel : ℕ) (fn : Function) (args : List Value) (s s' : Store) (v : Value)
    → CallsGrow calls
    → call_body calls fuel fn args s ≡ ok (v, s')
    → s.next_cell ≤ s'.next_cell
unfolding free_frame
call_body-CallsGrow calls fuel fn args s s' v grow e =
    elim (Bool-cases (not (length args == length fn.params))) [
      | inl t ↦ absurd (ground arith)
      | inr f ↦ call_blocks-Grows calls fuel fn args s s' v fn.blocks grow (ground arith)
    ]

-- A call gives no cell back, if no built-in function does.
pub call_function-CallsGrow :
    (rt : Runtime) (fuel : ℕ)
    → ((name : Runes) (builtin : List Value → Store → Result (Value × Store)) (args : List Value)
          (s s' : Store) (v : Value)
        → rt.builtins name ≡ some builtin
        → builtin args s ≡ ok (v, s')
        → s.next_cell ≤ s'.next_cell)
    → CallsGrow (call_function rt fuel)
unfolding call_function
call_function-CallsGrow rt zero grow name args s s' v e = absurd (ground arith)
call_function-CallsGrow rt (suc fuel) grow name args s s' v e =
    elim (Option-cases (rt.builtins name)) [
      | inr (builtin, h) ↦ grow name builtin args s s' v h (ground arith)
      | inl n ↦ elim (Option-cases (find_function name rt.functions)) [
        | inl f ↦ absurd (ground arith)
        | inr (fn, f) ↦
            call_body-CallsGrow (call_function rt fuel) fuel fn args s s' v
              (call_function-CallsGrow rt fuel grow) (ground arith)
      ]
    ]
