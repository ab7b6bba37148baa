-- ===== src/Interp/Machine.antt =====
-- The state of the interpreter: `Runtime`, `refTarget` and `frame` of
-- compiler/stage0/internal/interp/runtime.go, and the accesses to temps of instr.go.
use text.Mathlib.Text.{◌==◌ as str_eq}
use dast_lang.Base.{
  ℕ, zero, suc, ◌+◌, String, Option, none, some, List, [], ◌∷◌, ◌==◌, if◌then◌else◌, get_elem?,
}
use dast_lang.Interp.Store.{Object, Objects, Result, ok, err, ◌>>=◌, invalid_temp}
use dast_lang.Ir.Syntax.{Value, int, Operand, temp, const}

-- What an address refers to. A variable is a cell, which a Go pointer names.
pub data RefTarget : Type 0 where
  var_ref : (cell : ℕ) → RefTarget
  field_ref : (base : RefTarget) (field : String) → RefTarget
  index_ref : (base : RefTarget) (index : ℕ) → RefTarget

-- All that Go keeps on its heap, with the next free name of each kind, and the map `heap` from the
-- interpreter's addresses.
pub record Store : Type 0 where
  pub cells : ℕ → Option Value
  pub next_cell : ℕ
  pub objects : Objects
  pub next_object : ℕ
  pub heap : ℕ → Option RefTarget
  pub next_addr : ℕ

pub record Frame : Type 0 where
  pub vars : String → Option ℕ
  pub var_addrs : List (String × ℕ)
  pub temps : List Value

pub record Machine : Type 0 where
  pub frame : Frame
  pub store : Store

abbrev pub update {ℓ} : {A : Type ℓ} → (ℕ → Option A) → ℕ → A → ℕ → Option A
update f p v q = if q == p then some v else f q

abbrev pub update_name {ℓ} : {A : Type ℓ} → (String → Option A) → String → A → String → Option A
update_name f x v y = if str_eq y x then some v else f y

abbrev pub write_cell : ℕ → Value → Store → Store
write_cell p v s = record s { cells = update s.cells p v }

-- `&v` of a new variable.
abbrev pub new_cell : Value → Store → ℕ × Store
new_cell v s =
    (s.next_cell, record s { cells = update s.cells s.next_cell v; next_cell = s.next_cell + 1 })

abbrev pub write_object : ℕ → Object → Store → Store
write_object p o s = record s { objects = update s.objects p o }

abbrev pub new_object : Object → Store → ℕ × Store
new_object o s = (
  s.next_object,
  record s { objects = update s.objects s.next_object o; next_object = s.next_object + 1 },
)

-- `allocRef`.
unfoldable pub alloc_ref : RefTarget → Store → ℕ × Store
alloc_ref target s =
    (s.next_addr, record s { heap = update s.heap s.next_addr target; next_addr = s.next_addr + 1 })

-- Go's zero `Value`.
abbrev pub zero_value : Value
zero_value = int 0 ""

abbrev pub found_temp : Option Value → Result Value
found_temp none = err invalid_temp
found_temp (some v) = ok v

-- `getTemp`.
abbrev pub get_temp : List Value → ℕ → Result Value
get_temp temps t = found_temp (get_elem? temps t)

-- `setTemp`: beyond the end the temps grow, filled with zero values.
unfoldable pub set_temp : List Value → ℕ → Value → List Value
set_temp [] zero v = v ∷ []
set_temp [] (suc t) v = zero_value ∷ set_temp [] t v
set_temp (w ∷ temps) zero v = v ∷ temps
set_temp (w ∷ temps) (suc t) v = w ∷ set_temp temps t v

abbrev pub put_temp : ℕ → Value → Machine → Machine
put_temp t v m = record m { frame = record (m.frame) { temps = set_temp m.frame.temps t v } }

-- `evalOperand`.
abbrev pub eval_operand : Machine → Operand → Result Value
eval_operand m (const v) = ok v
eval_operand m (temp t) = get_temp m.frame.temps t

abbrev pub eval_operands : Machine → List Operand → Result (List Value)
eval_operands m [] = ok []
eval_operands m (op ∷ ops) = eval_operand m op >>= λ v. eval_operands m ops >>= λ vs. ok (v ∷ vs)
