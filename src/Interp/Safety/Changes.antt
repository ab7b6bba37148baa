-- ===== src/Interp/Safety/Changes.antt =====
-- The changes of a machine's temps, variables and references (compiler/stage0/internal/interp/instr.go),
-- with respect to the invariant.
use dast_lang.Interp.Store.{err, ok, Object, Result}
use dast_lang.Interp.Machine.{
  new_object, new_cell, Machine, Store, alloc_ref, RefTarget, put_temp, update, update_name,
  var_ref,
}
use dast_lang.Interp.Exec.{load_addr_at, store_name, put_ref, put_result, with_store}
use text.Mathlib.Text.{◌==◌ as str_eq}
use dast_lang.Interp.Safety.Refs.{write_cell-LiveAfter}
use dast_lang.Base.{
  ℕ, ◌+◌, String, true, false, Option, none, some, inl, inr, ◌⊎◌, Bool-cases, arith, ◌<◌, ◌≤◌, ◌≡◌,
  ◌==◌,
}
use mathlib.Core.Path.{subst}
use dast_lang.Interp.Safety.Live.{Safe, ok-Safe, err-Safe, LiveStore, LiveAfter, LiveMachine, root}
use dast_lang.Ir.Syntax.{Value, ref}

-- A live machine with at least the cells of `s`.
abbrev pub LiveStep : Store → Machine → Type 0
LiveStep s m = LiveMachine m × (s.next_cell ≤ m.store.next_cell)

pub put_temp-LiveStep :
    (s : Store) (t : ℕ) (v : Value) (m : Machine) → LiveStep s m → LiveStep s (put_temp t v m)
put_temp-LiveStep s t v m (live, le) =
    (record { store = live.store; vars = live.vars }, omega (arith, le))

pub with_store-LiveStep :
    (m : Machine) (s : Store)
    → LiveMachine m
    → LiveAfter m.store s
    → LiveStep m.store (with_store m s)
with_store-LiveStep m s live (after, le) = (
  record { store = after; vars = λ x cell e. omega (arith, live.vars x cell e, le) },
  omega (arith, le),
)

pub put_result-LiveStep :
    (dst : Option ℕ) (m : Machine) (res : Value × Store)
    → LiveMachine m
    → LiveAfter m.store res.1
    → LiveStep m.store (put_result dst m res)
put_result-LiveStep none m (v, s) live after = with_store-LiveStep m s live after
put_result-LiveStep (some dst) m (v, s) live after =
    put_temp-LiveStep m.store dst v (with_store m s) (with_store-LiveStep m s live after)

-- A new reference to a part of a variable that exists.
pub alloc_ref-LiveAfter :
    (target : RefTarget) (s : Store)
    → LiveStore s
    → root target < s.next_cell
    → LiveAfter s (alloc_ref target s).1
unfolding alloc_ref
alloc_ref-LiveAfter target s live below = (
  record { cells = live.cells; heap = λ a t e. below_at a t e (Bool-cases (a == s.next_addr)) },
  omega arith,
)
  where
    below_at :
        (a : ℕ) (t : RefTarget)
        → update s.heap s.next_addr target a ≡ some t
        → ((a == s.next_addr) ≡ true) ⊎ ((a == s.next_addr) ≡ false)
        → root t < s.next_cell
    below_at a t e (inl same) =
        let at : target ≡ t = ground arith in subst (λ z. root z < s.next_cell) at below
    below_at a t e (inr other) = live.heap a t (ground arith)

new_cell-LiveAfter : (v : Value) (s : Store) → LiveStore s → LiveAfter s (new_cell v s).1
new_cell-LiveAfter v s live = (
  record {
    cells = λ q l. held q l (Bool-cases (q == s.next_cell));
    heap = λ a t e. omega (arith, live.heap a t e);
  },
  omega arith,
)
  where
    held :
        (q : ℕ)
        → q < s.next_cell + 1
        → ((q == s.next_cell) ≡ true) ⊎ ((q == s.next_cell) ≡ false)
        → (w : Value) × (update s.cells s.next_cell v q ≡ some w)
    held q l (inl same) = (v, ground arith)
    held q l (inr other) =
        let below : q < s.next_cell = ground arith in
        let (w, h) = live.cells q below in (w, ground arith)

-- A variable that takes a new cell.
pub new_var-LiveStep :
    (name : String) (v : Value) (m : Machine)
    → LiveMachine m
    → LiveStep m.store (store_name name v m none)
new_var-LiveStep name v m live = (
  record {
    store = (new_cell-LiveAfter v m.store live.store).0;
    vars = λ x cell e. below x cell e (Bool-cases (str_eq x name));
  },
  omega arith,
)
  where
    below :
        (x : String) (cell : ℕ)
        → update_name m.frame.vars name m.store.next_cell x ≡ some cell
        → (str_eq x name ≡ true) ⊎ (str_eq x name ≡ false)
        → cell < m.store.next_cell + 1
    below x cell e (inl same) = ground arith
    below x cell e (inr other) = ground (arith, live.vars x cell (ground arith))

pub store_name-LiveStep :
    (name : String) (v : Value) (m : Machine) (cell : Option ℕ)
    → m.frame.vars name ≡ cell
    → LiveMachine m
    → LiveStep m.store (store_name name v m cell)
store_name-LiveStep name v m (some cell) e live =
    with_store-LiveStep m _ live
      (write_cell-LiveAfter cell v m.store live.store (live.vars name cell e))
store_name-LiveStep name v m none e live = new_var-LiveStep name v m live

pub put_ref-LiveStep :
    (dst : ℕ) (target : RefTarget) (m : Machine)
    → LiveMachine m
    → root target < m.store.next_cell
    → LiveStep m.store (put_ref dst target m)
unfolding alloc_ref
put_ref-LiveStep dst target m live below =
    put_temp-LiveStep m.store dst _ _
      (with_store-LiveStep m _ live (alloc_ref-LiveAfter target m.store live.store below))

pub stay-LiveStep :
    (t : ℕ) (v : Value) (m : Machine) → LiveMachine m → LiveStep m.store (put_temp t v m)
stay-LiveStep t v m live = put_temp-LiveStep m.store t v m (live, omega arith)

-- Objects hold no cells.
pub new_object-LiveStep :
    (dst : ℕ) (o : Object) (v : Value) (m : Machine)
    → LiveMachine m
    → LiveStep m.store (put_temp dst v (with_store m (new_object o m.store).1))
new_object-LiveStep dst o v m live = put_temp-LiveStep m.store dst v _ (
    with_store-LiveStep m _ live
      (record { cells = live.store.cells; heap = live.store.heap }, omega arith))

-- `load_addr` allocates the address of a variable that exists.
pub load_addr_at-Safe :
    (dst : ℕ) (name : String) (cell : ℕ) (m : Machine) (addr : Option ℕ)
    → LiveMachine m
    → cell < m.store.next_cell
    → Safe (LiveStep m.store) (load_addr_at dst name cell m addr)
unfolding alloc_ref
load_addr_at-Safe dst name cell m (some addr) live below =
    ok-Safe (stay-LiveStep dst (ref addr) m live)
load_addr_at-Safe dst name cell m none live below =
    let (after, le) = alloc_ref-LiveAfter (var_ref cell) m.store live.store below in
    ok-Safe (record { store = after; vars = live.vars }, le)

pub later-LiveStep :
    (s : Store) (m : Machine) (r : Result Machine)
    → LiveStep s m
    → Safe (LiveStep m.store) r
    → Safe (LiveStep s) r
later-LiveStep s m (ok n) step safe =
    ok-Safe (safe.outcome.0, omega (arith, step.1, safe.outcome.1))
later-LiveStep s m (err e) step safe = err-Safe safe.outcome
