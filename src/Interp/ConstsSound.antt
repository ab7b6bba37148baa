-- ===== src/Interp/ConstsSound.antt =====
-- The constants of `optimizeBlock` (compiler/stage0/internal/ir/opt.go) against `execInstr`
-- (compiler/stage0/internal/interp/instr.go).
use dast_lang.Interp.Exec.{
  exec_instrs, exec_term, eval_fields, lookup_addr, exec_instr, Calls, exec_load, exec_store,
}
use dast_lang.Interp.Store.{undefined_variable, ok, err}
use dast_lang.Base.{
  inr, inl, Option-cases, ◌∷◌, All, refl, true, codes, [], suc, arith, false, ◌≤◌, ◌≡◌, List, ℕ,
  Runes,
}
use dast_lang.Ir.BlockPass.{
  optimize_instrs, optimize_block, no_consts, optimize_term, optimize_instr, Consts,
}
use dast_lang.Ir.Syntax.{
  branch, jump, return, no_term, bool, const, temp, Block, Term, set_field, get_field, make_struct,
  set_index, index, make_array, call, load_var, bin_op, store_var, index_addr, field_addr,
  call_closure, Instr, Value,
}
use dast_lang.Interp.ConstsHold.{
  OwnsCells, forget_vars-ConstsHold, SignedOperand, ConstsHold, bind-ok, ok-injective,
  put_temp-ConstsHold,
}
use dast_lang.Interp.FoldKnown.{bin_op_known}
use dast_lang.Interp.Arith.{eval_binary}
use dast_lang.Interp.KeepCells.{
  set_struct_field-SameCells, set_index_value-SameCells, store_ref-next_cell,
}
use dast_lang.Interp.Refs.{
  get_struct_field, set_index_value, deref, set_struct_field, index_value, store_ref, found,
}
use dast_lang.Interp.Machine.{eval_operands, get_temp, eval_operand, Store, Machine}
use mathlib.Core.Path.{subst}
use dast_lang.Interp.ConstsStep.{
  exec_store-ConstsHold, exec_load-ConstsHold, put_unknown, put_with_store, same_cells,
  load_addr_at-ConstsHold, call_done,
}

-- Instructions whose effects the switch of `optimizeBlock` follows, with signed constants.
abbrev pub Tracked : Instr → Type 0
Tracked (call_closure _ _ _) = ⊥
Tracked (field_addr _ _ _) = ⊥
Tracked (index_addr _ _ _) = ⊥
Tracked (store_var name src is_ref ref_temp) = SignedOperand src
Tracked (bin_op dst op lhs rhs) = SignedOperand lhs × SignedOperand rhs
Tracked _ = Unit

-- A call takes cells and gives none back.
abbrev pub CallsGrow : Calls → Type 0
CallsGrow calls =
    (name : Runes) (args : List Value) (s s' : Store) (v : Value)
    → calls name args s ≡ ok (v, s')
    → s.next_cell ≤ s'.next_cell

module _ (calls : Calls) (grow : CallsGrow calls) (fuel : ℕ) (instrs : List Instr) where
  -- An instruction keeps the constants true.
  exec_instr-ConstsHold :
      {c : Consts} {m m' : Machine} (inst : Instr)
      → ConstsHold c m
      → Tracked inst
      → exec_instr calls (suc fuel) inst m ≡ ok m'
      → ConstsHold ((optimize_instr instrs inst c).1) m'
  unfolding exec_instr optimize_instr exec_load exec_store
  exec_instr-ConstsHold {m = m} (load_var dst name addr true r) h tracked e =
      let (a, g, k) = bind-ok (get_temp m.frame.temps r) _ e in
      let (v, g', k') = bind-ok (deref m.store (suc fuel) a) _ k in put_unknown dst v h k'
  exec_instr-ConstsHold {m = m} (load_var dst name true false r) h tracked e =
      let (cell, g, k) = bind-ok (found (err undefined_variable) (m.frame.vars name)) _ e in
      load_addr_at-ConstsHold dst name cell (lookup_addr name m.frame.var_addrs) h k
  exec_instr-ConstsHold (load_var dst name false false r) h tracked e =
      exec_load-ConstsHold (suc fuel) dst name r h e
  exec_instr-ConstsHold {m = m} (store_var name src true r) h tracked e =
      let (a, g, k) = bind-ok (get_temp m.frame.temps r) _ e in
      let (v, g', k') = bind-ok (eval_operand m src) _ k in
      let (s, g'', k'') = bind-ok (store_ref m.store (suc fuel) a v) _ k' in
      subst (ConstsHold _) (ok-injective k'') (
        forget_vars-ConstsHold s h
          (omega (arith, store_ref-next_cell m.store s (suc fuel) a v g'')))
  exec_instr-ConstsHold (store_var name src false r) h tracked e =
      exec_store-ConstsHold (suc fuel) name src r h tracked e
  exec_instr-ConstsHold {c = c} {m = m} (bin_op dst op lhs rhs) h tracked e =
      let (l, g, k) = bind-ok (eval_operand m lhs) _ e in
      let (r, g', k') = bind-ok (eval_operand m rhs) _ k in
      let (v, g'', k'') = bind-ok (eval_binary m.store.objects (suc fuel) op l r) _ k' in
      subst (ConstsHold _) (ok-injective k'')
        (put_temp-ConstsHold dst _ v h (λ w f. bin_op_known fuel op lhs rhs h tracked g g' g'' f))
  exec_instr-ConstsHold {m = m} (call dst callee args) h tracked e =
      let (vs, g, k) = bind-ok (eval_operands m args) _ e in
      let (res, g', k') = bind-ok (calls (codes callee) vs m.store) _ k in
      call_done instrs callee args dst res h (grow (codes callee) vs m.store res.1 res.0 g') k'
  exec_instr-ConstsHold {m = m} (make_array dst elems) h tracked e =
      let (vs, g, k) = bind-ok (eval_operands m elems) _ e in
      put_with_store dst _ _ h refl (omega arith) k
  exec_instr-ConstsHold {m = m} (index unchecked dst base idx) h tracked e =
      let (b, g, k) = bind-ok (eval_operand m base) _ e in
      let (i, g', k') = bind-ok (eval_operand m idx) _ k in
      let (v, g'', k'') = bind-ok (index_value unchecked m.store (suc fuel) b i) _ k' in
      put_unknown dst v h k''
  exec_instr-ConstsHold {m = m} (set_index unchecked base idx src) h tracked e =
      let (b, g, k) = bind-ok (eval_operand m base) _ e in
      let (i, g', k') = bind-ok (eval_operand m idx) _ k in
      let (v, p, l) = bind-ok (eval_operand m src) _ k' in
      let (s, p', l') = bind-ok (set_index_value unchecked m.store (suc fuel) b i v) _ l in
      same_cells s h (set_index_value-SameCells unchecked m.store s (suc fuel) b i v p') l'
  exec_instr-ConstsHold {m = m} (make_struct dst name fields) h tracked e =
      let (vs, g, k) = bind-ok (eval_fields m fields []) _ e in
      put_with_store dst _ _ h refl (omega arith) k
  exec_instr-ConstsHold {m = m} (get_field dst src field) h tracked e =
      let (v, g, k) = bind-ok (get_temp m.frame.temps src) _ e in
      let (w, g', k') = bind-ok (get_struct_field m.store (suc fuel) v field) _ k in
      put_unknown dst w h k'
  exec_instr-ConstsHold {m = m} (set_field src field value) h tracked e =
      let (v, g, k) = bind-ok (get_temp m.frame.temps src) _ e in
      let (w, g', k') = bind-ok (eval_operand m value) _ k in
      let (s, g'', k'') = bind-ok (set_struct_field m.store (suc fuel) v field w) _ k' in
      same_cells s h (set_struct_field-SameCells m.store s (suc fuel) v field w g'') k''
  exec_instr-ConstsHold (call_closure dst closure args) h tracked e = absurd tracked
  exec_instr-ConstsHold (field_addr dst src field) h tracked e = absurd tracked
  exec_instr-ConstsHold (index_addr dst base idx) h tracked e = absurd tracked

  pub exec_instrs-ConstsHold :
      (later : List Instr) {c : Consts} {m m' : Machine}
      → ConstsHold c m
      → All Tracked later
      → exec_instrs calls (suc fuel) later m ≡ ok m'
      → ConstsHold ((optimize_instrs instrs later c).1) m'
  unfolding exec_instrs optimize_instrs
  exec_instrs-ConstsHold [] h tracked e = subst (ConstsHold _) (ok-injective e) h
  exec_instrs-ConstsHold (inst ∷ later) {m = m} h tracked e =
      let (n, g, k) = bind-ok (exec_instr calls (suc fuel) inst m) _ e in
      exec_instrs-ConstsHold later (exec_instr-ConstsHold inst h tracked.0 g) tracked.1 k

-- A terminator that is decided by true constants does what it did.
exec_term-optimize_term :
    {c : Consts} {m : Machine} (term : Term)
    → ConstsHold c m
    → exec_term (optimize_term c term) m ≡ exec_term term m
unfolding exec_term optimize_term
exec_term-optimize_term {c = c} {m = m} (branch (const (bool true)) a b) h = refl
exec_term-optimize_term {c = c} {m = m} (branch (const (bool false)) a b) h = refl
exec_term-optimize_term {c = c} {m = m} (branch (const _) a b) h = refl
exec_term-optimize_term {c = c} {m = m} (branch (temp t) a b) h = elim (Option-cases (c.temps t)) [
  | inl n ↦ rw (n, exec_term)
  | inr (bool true, n) ↦ rw (n, exec_term, (h.temps t _ n).0)
  | inr (bool false, n) ↦ rw (n, exec_term, (h.temps t _ n).0)
  | inr (v, n) ↦ rw n refl
]
exec_term-optimize_term (jump target) h = refl
exec_term-optimize_term (return value) h = refl
exec_term-optimize_term no_term h = refl

-- Nothing is known at the start of a block.
pub no_consts-ConstsHold : {m : Machine} → OwnsCells m → ConstsHold no_consts m
no_consts-ConstsHold owns = record {
  owns = owns;
  temps = λ t v e. absurd (ground arith);
  vars = λ x v e. absurd (ground arith);
}

-- Where a block's instructions come to an end, the optimised terminator leads where the block's own
-- does, provided that no two variables share a cell and all cells are taken, that calls give no cell
-- back, that the integer constants of the block have no unsigned type, and that the block has no
-- call of a closure and takes no address of a field or an element.
pub optimize_block-exec_term :
    (calls : Calls) (fuel : ℕ) (blk : Block) (m m' : Machine)
    → CallsGrow calls
    → OwnsCells m
    → All Tracked blk.instr
    → exec_instrs calls (suc fuel) blk.instr m ≡ ok m'
    → exec_term ((optimize_block blk).term) m' ≡ exec_term blk.term m'
unfolding optimize_block
optimize_block-exec_term calls fuel blk m m' grow owns tracked e =
    exec_term-optimize_term blk.term (
      exec_instrs-ConstsHold calls grow fuel blk.instr blk.instr (no_consts-ConstsHold owns) tracked
        e)
