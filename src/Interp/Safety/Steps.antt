-- ===== src/Interp/Safety/Steps.antt =====
-- The instructions of compiler/stage0/internal/interp/instr.go, with respect to panics and to the
-- invariant, where every access to an element checks its bounds.
use dast_lang.Interp.Safety.Operands.{
  index_of-Safe, target_of-Safe, eval_fields-Safe, eval_operands-Safe, eval_operand-Safe,
  get_temp-Safe,
}
use dast_lang.Interp.Safety.Changes.{
  put_ref-LiveStep, new_object-LiveStep, put_result-LiveStep, load_addr_at-Safe,
  store_name-LiveStep, stay-LiveStep, with_store-LiveStep, later-LiveStep, LiveStep,
}
use dast_lang.Base.{
  sym, codes, Runes, ℕ, String, Bool, true, false, List, [], ◌∷◌, arith, ◌≡◌, refl,
}
use dast_lang.Interp.Store.{panic}
use dast_lang.Interp.Exec.{lookup_addr, exec_instr, exec_instrs, exec_load, exec_store, Calls}
use dast_lang.Interp.Safety.Refs.{
  deref-Safe, store_ref-Safe, get_struct_field-Safe, set_struct_field-Safe, index_value-Safe,
  set_index_value-Safe,
}
use dast_lang.Interp.Machine.{Machine, Store, alloc_ref, field_ref, index_ref}
use mathlib.Core.Path.{subst}
use dast_lang.Interp.Safety.Live.{
  Safe, Any, bind-Safe, found-Safe, ok-Safe, some-Safe, LiveStore, LiveAfter, LiveMachine,
}
use dast_lang.Interp.Safety.Ops.{eval_binary-Safe}
use dast_lang.Ir.Syntax.{
  Value, Operand, load_var, store_var, bin_op, call, call_closure, make_array, index, set_index,
  make_struct, get_field, field_addr, set_field, index_addr, Instr,
}

-- The accesses to elements that check their bounds, and the calls of some functions by their names.
abbrev pub Checked : (Runes → Bool) → Instr → Type 0
Checked callable (index unchecked dst base idx) = unchecked ≡ false
Checked callable (set_index unchecked base idx src) = unchecked ≡ false
Checked callable (call dst callee args) = callable (codes callee) ≡ true
Checked callable (call_closure dst closure args) = ⊥
Checked callable _ = Unit

abbrev pub AllChecked : (Runes → Bool) → List Instr → Type 0
AllChecked callable [] = Unit
AllChecked callable (inst ∷ instrs) = Checked callable inst × AllChecked callable instrs

abbrev pub LiveCalls : (Runes → Bool) → Calls → Type 0
LiveCalls callable calls =
    (name : Runes) (args : List Value) (s : Store)
    → callable name ≡ true
    → LiveStore s
    → Safe (λ r. LiveAfter s r.1) (calls name args s)

module _ (callable : Runes → Bool) (calls : Calls) (safe : LiveCalls callable calls)
    (fuel : ℕ) where
  exec_load-Safe :
      (dst : ℕ) (name : String) (addr is_ref : Bool) (r : ℕ) (m : Machine)
      → LiveMachine m
      → Safe (LiveStep m.store) (exec_load fuel dst name addr is_ref r m)
  unfolding exec_load
  exec_load-Safe dst name addr true r m live = bind-Safe (get_temp-Safe m.frame.temps r) (λ a _.
      bind-Safe (deref-Safe m.store fuel live.store a)
        (λ v _. ok-Safe (stay-LiveStep dst v m live)))
  exec_load-Safe dst name true false r m live =
      bind-Safe (found-Safe _ (m.frame.vars name) tt (live.vars name)) (λ cell below.
        load_addr_at-Safe dst name cell m (lookup_addr name m.frame.var_addrs) live below)
  exec_load-Safe dst name false false r m live =
      bind-Safe (found-Safe _ (m.frame.vars name) tt (live.vars name)) (λ cell below.
        let (v, h) = live.store.cells cell below in
        bind-Safe {P = Any} (some-Safe panic (m.store.cells cell) v h tt)
          (λ w _. ok-Safe (stay-LiveStep dst w m live)))

  exec_store-Safe :
      (name : String) (src : Operand) (is_ref : Bool) (r : ℕ) (m : Machine)
      → LiveMachine m
      → Safe (LiveStep m.store) (exec_store fuel name src is_ref r m)
  unfolding exec_store
  exec_store-Safe name src true r m live = bind-Safe (get_temp-Safe m.frame.temps r) (λ a _.
      bind-Safe (eval_operand-Safe m src) (λ v _.
        bind-Safe (store_ref-Safe m.store fuel live.store a v)
          (λ s after. ok-Safe (with_store-LiveStep m s live after))))
  exec_store-Safe name src false r m live =
      bind-Safe (eval_operand-Safe m src)
        (λ v _. ok-Safe (store_name-LiveStep name v m (m.frame.vars name) refl live))

  exec_instr-Safe :
      (inst : Instr) (m : Machine)
      → Checked callable inst
      → LiveMachine m
      → Safe (LiveStep m.store) (exec_instr calls fuel inst m)
  unfolding exec_instr exec_load exec_store alloc_ref
  exec_instr-Safe (load_var dst name addr is_ref r) m checked live =
      exec_load-Safe dst name addr is_ref r m live
  exec_instr-Safe (store_var name src is_ref r) m checked live =
      exec_store-Safe name src is_ref r m live
  exec_instr-Safe (bin_op dst op lhs rhs) m checked live =
      bind-Safe (eval_operand-Safe m lhs) (λ l _. bind-Safe (eval_operand-Safe m rhs) (λ r _.
        bind-Safe (eval_binary-Safe m.store.objects fuel op l r)
          (λ v _. ok-Safe (stay-LiveStep dst v m live))))
  exec_instr-Safe (call dst callee args) m checked live =
      bind-Safe (eval_operands-Safe m args) (λ vs _.
        bind-Safe (safe (codes callee) vs m.store checked live.store)
          (λ res after. ok-Safe (put_result-LiveStep dst m res live after)))
  exec_instr-Safe (call_closure dst closure args) m checked live = absurd checked
  exec_instr-Safe (make_array dst elems) m checked live =
      bind-Safe (eval_operands-Safe m elems) (λ vs _. ok-Safe (new_object-LiveStep dst _ _ m live))
  exec_instr-Safe (make_struct dst name fields) m checked live =
      bind-Safe (eval_fields-Safe m fields [])
        (λ vs _. ok-Safe (new_object-LiveStep dst _ _ m live))
  exec_instr-Safe (index unchecked dst base idx) m checked live =
      subst (λ u. Safe (LiveStep m.store) (exec_instr calls fuel (index u dst base idx) m))
        (sym checked)
        (bind-Safe (eval_operand-Safe m base) (λ b _. bind-Safe (eval_operand-Safe m idx) (λ i _.
          bind-Safe (index_value-Safe m.store fuel live.store b i)
            (λ v _. ok-Safe (stay-LiveStep dst v m live)))))
  exec_instr-Safe (set_index unchecked base idx src) m checked live =
      subst (λ u. Safe (LiveStep m.store) (exec_instr calls fuel (set_index u base idx src) m))
        (sym checked)
        (bind-Safe (eval_operand-Safe m base) (λ b _. bind-Safe (eval_operand-Safe m idx) (λ i _.
          bind-Safe (eval_operand-Safe m src) (λ v _.
            bind-Safe (set_index_value-Safe m.store fuel live.store b i v)
              (λ s after. ok-Safe (with_store-LiveStep m s live after))))))
  exec_instr-Safe (get_field dst src field) m checked live =
      bind-Safe (get_temp-Safe m.frame.temps src) (λ v _.
        bind-Safe (get_struct_field-Safe m.store fuel live.store v field)
          (λ w _. ok-Safe (stay-LiveStep dst w m live)))
  exec_instr-Safe (set_field src field value) m checked live =
      bind-Safe (get_temp-Safe m.frame.temps src) (λ v _.
        bind-Safe (eval_operand-Safe m value) (λ w _.
          bind-Safe (set_struct_field-Safe m.store fuel live.store v field w)
            (λ s after. ok-Safe (with_store-LiveStep m s live after))))
  exec_instr-Safe (field_addr dst src field) m checked live =
      bind-Safe (get_temp-Safe m.frame.temps src) (λ v _.
        bind-Safe (target_of-Safe m.store v live.store)
          (λ base below. ok-Safe (put_ref-LiveStep dst (field_ref base field) m live below)))
  exec_instr-Safe (index_addr dst base idx) m checked live =
      bind-Safe (get_temp-Safe m.frame.temps base) (λ v _.
        bind-Safe (target_of-Safe m.store v live.store) (λ target below.
          bind-Safe (eval_operand-Safe m idx) (λ w _.
            bind-Safe (index_of-Safe w)
              (λ i _. ok-Safe (put_ref-LiveStep dst (index_ref target i) m live below)))))

  pub exec_instrs-Safe :
      (instrs : List Instr) (m : Machine)
      → AllChecked callable instrs
      → LiveMachine m
      → Safe (LiveStep m.store) (exec_instrs calls fuel instrs m)
  unfolding exec_instrs
  exec_instrs-Safe [] m checked live = ok-Safe (live, omega arith)
  exec_instrs-Safe (inst ∷ instrs) m checked live =
      bind-Safe (exec_instr-Safe inst m checked.0 live)
        (λ n step. later-LiveStep m.store n _ step (exec_instrs-Safe instrs n checked.1 step.0))
