-- ===== src/Interp/StoreHolds.antt =====
-- A store to a variable in `execInstr` (compiler/stage0/internal/interp/instr.go) and the constant
-- that `optimizeBlock` (compiler/stage0/internal/ir/opt.go) then notes for it.
use dast_lang.Interp.FreshCells.{new_vars, new_vars-apart, new_vars-taken}
use dast_lang.Base.{
  ◌∙◌, ap, arith, inr, Bool-cases, Option-cases, inl, String, ℕ, Option, none, some, ◌≡◌, ◌⊎◌, true,
  false, if◌then◌else◌,
}
use dast_lang.Interp.ConstsHold.{ConstsHold, Signed}
use dast_lang.Interp.Exec.{store_name}
use dast_lang.Interp.Machine.{Machine, update}
use dast_lang.Ir.BlockPass.{Consts, set_var}
use dast_lang.Ir.Syntax.{Value}
use text.Mathlib.TextEquality.{eq_iff}
use text.Mathlib.Text.{◌==◌ as str_eq}

module _ {c : Consts} {m : Machine} (name : String) (known : Option Value) (v : Value)
    (h : ConstsHold c m) (knows : (w : Value) → known ≡ some w → (v ≡ w) × Signed w) where
  old_cell :
      (cell : ℕ)
      → m.frame.vars name ≡ some cell
      → ConstsHold (set_var name known c) (store_name name v m (some cell))
  old_cell cell at = record {
    owns = record { apart = h.owns.apart; taken = h.owns.taken };
    temps = h.temps;
    vars = λ x w e. var_at x w (Bool-cases (str_eq x name)) e;
  }
    where
      var_at :
          (x : String) (w : Value)
          → (str_eq x name ≡ true) ⊎ (str_eq x name ≡ false)
          → (if str_eq x name then known else c.vars x) ≡ some w
          → (p : ℕ) × (m.frame.vars x ≡ some p)
            × (update m.store.cells cell v p ≡ some w)
            × Signed w
      var_at x w (inl same) e =
          let is_known : known ≡ some w = ground arith in
          let x_name : x ≡ name = ground (arith, eq_iff x name) in
          (
            cell,
            ap m.frame.vars x_name ∙ at,
            ground (arith, (knows w is_known).0),
            (knows w is_known).1,
          )
      var_at x w (inr other) e =
          let (p, found, holds, signed) = h.vars x w (ground arith) in
          let differs : ¬ p ≡ cell =
            λ q. ground (arith, eq_iff x name, h.owns.apart x name cell (found ∙ ap some q) at) in
          (p, found, ground arith, signed)

  fresh_cell :
      m.frame.vars name ≡ none → ConstsHold (set_var name known c) (store_name name v m none)
  fresh_cell at = record {
    owns = record { apart = new_vars-apart m h.owns name; taken = new_vars-taken m h.owns name };
    temps = h.temps;
    vars = λ x w e. var_at x w (Bool-cases (str_eq x name)) e;
  }
    where
      var_at :
          (x : String) (w : Value)
          → (str_eq x name ≡ true) ⊎ (str_eq x name ≡ false)
          → (if str_eq x name then known else c.vars x) ≡ some w
          → (p : ℕ) × (new_vars m h.owns name x ≡ some p)
            × (update m.store.cells m.store.next_cell v p ≡ some w)
            × Signed w
      var_at x w (inl same) e =
          let is_known : known ≡ some w = ground arith in
          (
            m.store.next_cell,
            ground arith,
            ground (arith, (knows w is_known).0),
            (knows w is_known).1,
          )
      var_at x w (inr other) e =
          let (p, found, holds, signed) = h.vars x w (ground arith) in
          let taken = h.owns.taken x p found in (p, ground arith, ground arith, signed)

  -- Behind the store the variable holds the value, in a cell of its own.
  pub store_name-ConstsHold :
      ConstsHold (set_var name known c) (store_name name v m (m.frame.vars name))
  store_name-ConstsHold = elim (Option-cases (m.frame.vars name)) [
    | inl n ↦ rw n (fresh_cell n)
    | inr (cell, n) ↦ rw n (old_cell cell n)
  ]
