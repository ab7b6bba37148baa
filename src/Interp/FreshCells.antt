-- ===== src/Interp/FreshCells.antt =====
-- A variable that takes a new cell has it alone: the parameters of `callFunction`
-- (compiler/stage0/internal/interp/runtime.go) and the new variables of `execInstr` (instr.go).
use dast_lang.Base.{
  ℕ, ◌+◌, ◌<◌, String, Option, some, List, [], ◌∷◌, ◌≡◌, inl, inr, arith, Bool-cases,
}
use dast_lang.Interp.Call.{bind_param, bind_params, new_frame}
use dast_lang.Interp.ConstsHold.{OwnsCells}
use dast_lang.Interp.Machine.{Machine, Store, update_name}
use dast_lang.Ir.Syntax.{Value, Var, Function}
use text.Mathlib.Text.{◌==◌ as str_eq}
use text.Mathlib.TextEquality.{eq_iff}

module _ (m : Machine) (owns : OwnsCells m) (name : String) where
  abbrev pub new_vars : String → Option ℕ
  new_vars = update_name m.frame.vars name m.store.next_cell

  pub new_vars-apart :
      (x y : String) (cell : ℕ) → new_vars x ≡ some cell → new_vars y ≡ some cell → x ≡ y
  new_vars-apart x y cell e f = elim (Bool-cases (str_eq x name)) [
    | inl s ↦ elim (Bool-cases (str_eq y name)) [
      | inl t ↦ ground (arith, eq_iff x name, eq_iff y name)
      | inr t ↦ absurd (ground (arith, owns.taken y cell (ground arith)))
    ]
    | inr s ↦ elim (Bool-cases (str_eq y name)) [
      | inl t ↦ absurd (ground (arith, owns.taken x cell (ground arith)))
      | inr t ↦ owns.apart x y cell (ground arith) (ground arith)
    ]
  ]

  pub new_vars-taken :
      (x : String) (cell : ℕ) → new_vars x ≡ some cell → cell < m.store.next_cell + 1
  new_vars-taken x cell e = elim (Bool-cases (str_eq x name)) [
    | inl s ↦ ground arith
    | inr s ↦ ground (arith, owns.taken x cell (ground arith))
  ]

pub bind_params-OwnsCells :
    (i : ℕ) (params : List Var) (args : List Value) (m : Machine)
    → OwnsCells m
    → OwnsCells (bind_params i params args m)
bind_params-OwnsCells i [] args m owns = owns
bind_params-OwnsCells i (p ∷ params) [] m owns = owns
bind_params-OwnsCells i (p ∷ params) (v ∷ args) m owns =
    bind_params-OwnsCells (i + 1) params args (bind_param i p.name v m)
      (record { apart = new_vars-apart m owns p.name; taken = new_vars-taken m owns p.name })

-- A new frame has no variables.
pub new_frame-OwnsCells :
    (fn : Function) (s : Store) → OwnsCells (record { frame = new_frame fn; store = s })
new_frame-OwnsCells fn s = record {
  apart = λ x y cell e f. absurd (ground arith);
  taken = λ x cell e. absurd (ground arith);
}
