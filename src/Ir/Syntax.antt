-- ===== src/Ir/Syntax.antt =====
-- The IR's data: `Operand`, `Value`, the instructions, terminators, blocks and functions of
-- compiler/stage0/internal/ir/ir.go.
use dast_lang.Base.{ℕ, String, Bool, Option, List, Runes}

pub data AstKind : Type 0 where
  ast_expr ast_stmt ast_item ast_block : AstKind

-- An integer is its 64-bit pattern with the name of its type, which may be empty. Structs, enums and
-- arrays are pointers, `none` for nil: a number names the object in the interpreter's store.
pub data Value : Type 0 where
  int : ℕ → String → Value
  float : String → Value
  bool : Bool → Value
  string : Runes → Value
  unit : Value
  ref : ℕ → Value
  struct : Option ℕ → Value
  enum : Option ℕ → Value
  array : Option ℕ → Value
  ast : AstKind → Runes → Value

pub data Operand : Type 0 where
  temp : ℕ → Operand
  const : Value → Operand

-- The operators that the switches of the optimiser and the interpreter name; `other` is any further
-- text.
pub data BinaryOp : Type 0 where
  add sub mul div rem eq ne lt le gt ge and or bit_and bit_or bit_xor shl shr : BinaryOp
  other : String → BinaryOp

pub record StructFieldInit : Type 0 where
  pub name : String
  pub src : Operand

-- A negative `Dst` of a call is `none`.
pub data Instr : Type 0 where
  load_var : (dst : ℕ) (name : String) (addr is_ref : Bool) (ref_temp : ℕ) → Instr
  store_var : (name : String) (src : Operand) (is_ref : Bool) (ref_temp : ℕ) → Instr
  bin_op : (dst : ℕ) (op : BinaryOp) (lhs rhs : Operand) → Instr
  call : (dst : Option ℕ) (callee : String) (args : List Operand) → Instr
  call_closure : (dst : Option ℕ) (closure : Operand) (args : List Operand) → Instr
  make_array : (dst : ℕ) (elems : List Operand) → Instr
  index : (unchecked : Bool) (dst : ℕ) (base idx : Operand) → Instr
  set_index : (unchecked : Bool) (base idx src : Operand) → Instr
  make_struct : (dst : ℕ) (name : String) (fields : List StructFieldInit) → Instr
  get_field : (dst src : ℕ) (field : String) → Instr
  field_addr : (dst src : ℕ) (field : String) → Instr
  set_field : (src : ℕ) (field : String) (value : Operand) → Instr
  index_addr : (dst base : ℕ) (idx : Operand) → Instr

-- `no_term` is the nil terminator.
pub data Term : Type 0 where
  jump : (target : String) → Term
  branch : (cond : Operand) (then_target else_target : String) → Term
  return : (value : Option Operand) → Term
  no_term : Term

pub record Block : Type 0 where
  pub label : String
  pub instr : List Instr
  pub term : Term

pub record Var : Type 0 where
  pub name : String
  pub type : String

pub record Function : Type 0 where
  pub name : String
  pub params : List Var
  pub return_type : String
  pub locals : List Var
  pub temp_types : List String
  pub blocks : List Block
  pub temp_count : ℕ
