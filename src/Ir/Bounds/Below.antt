-- ===== src/Ir/Bounds/Below.antt =====
-- All temps of an instruction, as `validateInstr` of compiler/stage0/internal/ir/ir.go reads them, are
-- below a number.
use dast_lang.Base.{
  ℕ, ◌<◌, ◌≤◌, Bool, true, false, When, Option, none, some, List, [], ◌∷◌, ◌++◌, arith,
}
use dast_lang.Ir.Syntax.{
  Operand, const, temp, StructFieldInit, Instr, load_var, store_var, bin_op, call, call_closure,
  make_array, index, set_index, make_struct, get_field, field_addr, set_field, index_addr, Term,
  jump, branch, return, no_term, Block,
}

abbrev pub OperandBelow : ℕ → Operand → Type 0
OperandBelow n (const v) = Unit
OperandBelow n (temp t) = t < n

abbrev pub OperandsBelow : ℕ → List Operand → Type 0
OperandsBelow n [] = Unit
OperandsBelow n (op ∷ ops) = OperandBelow n op × OperandsBelow n ops

abbrev pub FieldsBelow : ℕ → List StructFieldInit → Type 0
FieldsBelow n [] = Unit
FieldsBelow n (f ∷ fields) = OperandBelow n f.src × FieldsBelow n fields

abbrev pub DstBelow : ℕ → Option ℕ → Type 0
DstBelow n none = Unit
DstBelow n (some dst) = dst < n

abbrev pub InstrBelow : ℕ → Instr → Type 0
InstrBelow n (load_var dst name addr is_ref ref_temp) = (dst < n) × When is_ref (ref_temp < n)
InstrBelow n (store_var name src is_ref ref_temp) = OperandBelow n src × When is_ref (ref_temp < n)
InstrBelow n (bin_op dst op lhs rhs) = (dst < n) × OperandBelow n lhs × OperandBelow n rhs
InstrBelow n (call dst callee args) = DstBelow n dst × OperandsBelow n args
InstrBelow n (call_closure dst closure args) =
    DstBelow n dst × OperandBelow n closure × OperandsBelow n args
InstrBelow n (make_array dst elems) = (dst < n) × OperandsBelow n elems
InstrBelow n (index unchecked dst base idx) = (dst < n) × OperandBelow n base × OperandBelow n idx
InstrBelow n (set_index unchecked base idx src) =
    OperandBelow n base × OperandBelow n idx × OperandBelow n src
InstrBelow n (make_struct dst name fields) = (dst < n) × FieldsBelow n fields
InstrBelow n (get_field dst src field) = (dst < n) × (src < n)
InstrBelow n (field_addr dst src field) = (dst < n) × (src < n)
InstrBelow n (set_field src field value) = (src < n) × OperandBelow n value
InstrBelow n (index_addr dst base idx) = (dst < n) × (base < n) × OperandBelow n idx

abbrev pub AllBelow : ℕ → List Instr → Type 0
AllBelow n [] = Unit
AllBelow n (inst ∷ instrs) = InstrBelow n inst × AllBelow n instrs

abbrev pub TermBelow : ℕ → Term → Type 0
TermBelow n (branch cond then_target else_target) = OperandBelow n cond
TermBelow n (return (some op)) = OperandBelow n op
TermBelow n _ = Unit

abbrev pub BlocksBelow : ℕ → List Block → Type 0
BlocksBelow n [] = Unit
BlocksBelow n (blk ∷ blocks) = AllBelow n blk.instr × TermBelow n blk.term × BlocksBelow n blocks

module _ (n k : ℕ) (le : n ≤ k) where
  operand_raised : (op : Operand) → OperandBelow n op → OperandBelow k op
  operand_raised (const v) h = tt
  operand_raised (temp t) h = omega (arith, h, le)

  pub operands_raised : (ops : List Operand) → OperandsBelow n ops → OperandsBelow k ops
  operands_raised [] h = tt
  operands_raised (op ∷ ops) h = (operand_raised op h.0, operands_raised ops h.1)

  fields_raised : (fields : List StructFieldInit) → FieldsBelow n fields → FieldsBelow k fields
  fields_raised [] h = tt
  fields_raised (f ∷ fields) h = (operand_raised f.src h.0, fields_raised fields h.1)

  pub dst_raised : (dst : Option ℕ) → DstBelow n dst → DstBelow k dst
  dst_raised none h = tt
  dst_raised (some dst) h = omega (arith, h, le)

  when_raised : (b : Bool) (t : ℕ) → When b (t < n) → When b (t < k)
  when_raised true t h = omega (arith, h, le)
  when_raised false t h = tt

  temp_raised : (t : ℕ) → t < n → t < k
  temp_raised t h = omega (arith, h, le)

  pub instr_raised : (inst : Instr) → InstrBelow n inst → InstrBelow k inst
  instr_raised (load_var dst name addr is_ref r) h = (temp_raised dst h.0, when_raised is_ref r h.1)
  instr_raised (store_var name src is_ref r) h = (operand_raised src h.0, when_raised is_ref r h.1)
  instr_raised (bin_op dst op lhs rhs) h =
      (temp_raised dst h.0, operand_raised lhs h.1, operand_raised rhs h.2)
  instr_raised (call dst callee args) h = (dst_raised dst h.0, operands_raised args h.1)
  instr_raised (call_closure dst closure args) h =
      (dst_raised dst h.0, operand_raised closure h.1, operands_raised args h.2)
  instr_raised (make_array dst elems) h = (temp_raised dst h.0, operands_raised elems h.1)
  instr_raised (index unchecked dst base idx) h =
      (temp_raised dst h.0, operand_raised base h.1, operand_raised idx h.2)
  instr_raised (set_index unchecked base idx src) h =
      (operand_raised base h.0, operand_raised idx h.1, operand_raised src h.2)
  instr_raised (make_struct dst name fields) h = (temp_raised dst h.0, fields_raised fields h.1)
  instr_raised (get_field dst src field) h = (temp_raised dst h.0, temp_raised src h.1)
  instr_raised (field_addr dst src field) h = (temp_raised dst h.0, temp_raised src h.1)
  instr_raised (set_field src field value) h = (temp_raised src h.0, operand_raised value h.1)
  instr_raised (index_addr dst base idx) h =
      (temp_raised dst h.0, temp_raised base h.1, operand_raised idx h.2)

  pub all_raised : (instrs : List Instr) → AllBelow n instrs → AllBelow k instrs
  all_raised [] h = tt
  all_raised (inst ∷ instrs) h = (instr_raised inst h.0, all_raised instrs h.1)

  pub term_raised : (term : Term) → TermBelow n term → TermBelow k term
  term_raised (branch cond then_target else_target) h = operand_raised cond h
  term_raised (return (some op)) h = operand_raised op h
  term_raised (return none) h = tt
  term_raised (jump target) h = tt
  term_raised no_term h = tt

  pub blocks_raised : (blocks : List Block) → BlocksBelow n blocks → BlocksBelow k blocks
  blocks_raised [] h = tt
  blocks_raised (blk ∷ blocks) h =
      (all_raised blk.instr h.0, term_raised blk.term h.1, blocks_raised blocks h.2)

pub AllBelow-append :
    (n : ℕ) (xs ys : List Instr) → AllBelow n xs → AllBelow n ys → AllBelow n (xs ++ ys)
AllBelow-append n [] ys h k = k
AllBelow-append n (x ∷ xs) ys h k = (h.0, AllBelow-append n xs ys h.1 k)
