-- ===== src/Interp/ConstsStep.antt =====
-- The steps of `execInstr` (compiler/stage0/internal/interp/instr.go) that keep the constants of
-- `optimizeBlock` (compiler/stage0/internal/ir/opt.go) true.
use dast_lang.Base.{Option, none, ◌∙◌, sym, arith, false, some, ◌≤◌, String, ◌≡◌, List, ℕ}
use dast_lang.Interp.Exec.{load_addr_at, put_result, with_store, exec_load, exec_store}
use dast_lang.Ir.BlockPass.{set_var, optimize_instr, operand_const, set_temp as set_known, Consts}
use dast_lang.Ir.Syntax.{ref, call, Instr, Operand, Value}
use dast_lang.Interp.ConstsHold.{
  forget_vars-ConstsHold, with_store-ConstsHold, SignedOperand, ConstsHold, bind-ok, ok-injective,
  put_temp-ConstsHold,
}
use dast_lang.Interp.FoldKnown.{operand_const-eval_operand}
use dast_lang.Interp.KeepCells.{SameCells}
use dast_lang.Interp.Refs.{found}
use dast_lang.Interp.Machine.{RefTarget, alloc_ref, put_temp, eval_operand, Store, Machine}
use dast_lang.Interp.StoreHolds.{store_name-ConstsHold}
use mathlib.Core.Path.{subst}
use dast_lang.Interp.Store.{undefined_variable, panic, ok, err}

pub exec_store-ConstsHold :
    {c : Consts} {m m' : Machine} (fuel : ℕ) (name : String) (src : Operand) (ref_temp : ℕ)
    → ConstsHold c m
    → SignedOperand src
    → exec_store fuel name src false ref_temp m ≡ ok m'
    → ConstsHold (set_var name (operand_const c src) c) m'
unfolding exec_store
exec_store-ConstsHold {c = c} {m = m} fuel name src ref_temp h signed e =
    let (v, g, k) = bind-ok (eval_operand m src) _ e in
    subst (ConstsHold _) (ok-injective k) (
      store_name-ConstsHold name (operand_const c src) v h (λ w f.
        let (evaluated, signed_w) = operand_const-eval_operand src w h signed f in
        (ok-injective (sym g ∙ evaluated), signed_w)))

pub exec_load-ConstsHold :
    {c : Consts} {m m' : Machine} (fuel dst : ℕ) (name : String) (ref_temp : ℕ)
    → ConstsHold c m
    → exec_load fuel dst name false false ref_temp m ≡ ok m'
    → ConstsHold (set_known dst (c.vars name) c) m'
unfolding exec_load
exec_load-ConstsHold {c = c} {m = m} fuel dst name ref_temp h e =
    let (cell, g, k) = bind-ok (found (err undefined_variable) (m.frame.vars name)) _ e in
    let (v, g', k') = bind-ok (found (err panic) (m.store.cells cell)) _ k in
    subst (ConstsHold _) (ok-injective k') (
      put_temp-ConstsHold dst (c.vars name) v h
        (λ w f. let (p, at, holds, signed) = h.vars name w f in (ground arith, signed)))

-- A result of which nothing is known.
pub put_unknown :
    {c : Consts} {m m' : Machine} (dst : ℕ) (v : Value)
    → ConstsHold c m
    → ok (put_temp dst v m) ≡ ok m'
    → ConstsHold (set_known dst none c) m'
put_unknown dst v h e =
    subst (ConstsHold _) (ok-injective e)
      (put_temp-ConstsHold dst none v h (λ w f. absurd (ground arith)))

-- So it is with a result beside a new store.
pub put_with_store :
    {c : Consts} {m m' : Machine} (dst : ℕ) (v : Value) (s : Store)
    → ConstsHold c m
    → s.cells ≡ m.store.cells
    → m.store.next_cell ≤ s.next_cell
    → ok (put_temp dst v (with_store m s)) ≡ ok m'
    → ConstsHold (set_known dst none c) m'
put_with_store dst v s h cells le e = put_unknown dst v (with_store-ConstsHold s h cells le) e

pub same_cells :
    {c : Consts} {m m' : Machine} (s : Store)
    → ConstsHold c m
    → SameCells m.store s
    → ok (with_store m s) ≡ ok m'
    → ConstsHold c m'
same_cells s h same e =
    subst (ConstsHold _) (ok-injective e) (with_store-ConstsHold s h same.0 (omega (arith, same.1)))

forget_var-ConstsHold :
    {c : Consts} {m : Machine} (name : String) → ConstsHold c m → ConstsHold (set_var name none c) m
forget_var-ConstsHold {c = c} {m = m} name h = record {
  owns = h.owns;
  temps = h.temps;
  vars = λ x v e. h.vars x v (ground arith);
}

-- The address of a variable is noted in the frame and on the heap alone.
note_addr-ConstsHold :
    {c : Consts} {m : Machine} (addrs : List (String × ℕ)) (target : RefTarget)
    → ConstsHold c m
    → ConstsHold c (record {
      frame = record (m.frame) { var_addrs = addrs };
      store = (alloc_ref target m.store).1;
    })
unfolding alloc_ref
note_addr-ConstsHold addrs target h = record {
  owns = record { apart = h.owns.apart; taken = h.owns.taken };
  temps = h.temps;
  vars = h.vars;
}

pub load_addr_at-ConstsHold :
    {c : Consts} {m m' : Machine} (dst : ℕ) (name : String) (cell : ℕ) (addr : Option ℕ)
    → ConstsHold c m
    → load_addr_at dst name cell m addr ≡ ok m'
    → ConstsHold (set_var name none (set_known dst none c)) m'
load_addr_at-ConstsHold dst name cell (some addr) h e =
    forget_var-ConstsHold name (put_unknown dst (ref addr) h e)
load_addr_at-ConstsHold {m = m} dst name cell none h e =
    forget_var-ConstsHold name
      (put_unknown dst _ (note_addr-ConstsHold _ (RefTarget.var_ref cell) h) e)

pub call_done :
    {c : Consts} {m m' : Machine} (instrs : List Instr) (callee : String) (args : List Operand)
    (dst : Option ℕ) (res : Value × Store)
    → ConstsHold c m
    → m.store.next_cell ≤ res.1.next_cell
    → ok (put_result dst m res) ≡ ok m'
    → ConstsHold ((optimize_instr instrs (call dst callee args) c).1) m'
unfolding optimize_instr
call_done instrs callee args none res h le e =
    subst (ConstsHold _) (ok-injective e) (forget_vars-ConstsHold res.1 h le)
call_done instrs callee args (some dst) res h le e =
    put_unknown dst res.0 (forget_vars-ConstsHold res.1 h le) e
