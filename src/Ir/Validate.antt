-- ===== src/Ir/Validate.antt =====
-- `validateFunction`, `validateBlock`, `validateInstr`, `collectDeclaredVars`, `validateTemp`,
-- `validateOperand` and `isValidBinOp` of compiler/stage0/internal/ir/ir.go: `true` stands for a nil
-- error, and the texts of errors are left out. `validateDefiniteAssignment` is not part of the model.
pub mod Laws
pub mod Inlining
pub mod Examples
use dast_lang.Base.{
  if◌then◌else◌, ℕ, String, Bool, true, false, not, ◌&&◌, Option, none, some, List, [], ◌∷◌, ltb,
}
use text.Mathlib.Text.{◌==◌ as str_eq}
use dast_lang.Ir.Prune.{mem_label}
use dast_lang.Ir.Syntax.{
  Operand, const, temp, BinaryOp, other, StructFieldInit, Instr, load_var, store_var, bin_op, call,
  call_closure, make_array, index, set_index, make_struct, get_field, field_addr, set_field,
  index_addr, Term, jump, branch, return, no_term, Block, Function, Var,
}

unfoldable pub is_valid_bin_op : BinaryOp → Bool
is_valid_bin_op (other text) = false
is_valid_bin_op _ = true

-- A temp is never negative here; a negative destination, which `allowNegative` lets pass, is `none`.
abbrev pub validate_temp : ℕ → ℕ → Bool
validate_temp t temp_count = ltb t temp_count

abbrev validate_dst : Option ℕ → ℕ → Bool
validate_dst none temp_count = true
validate_dst (some dst) temp_count = validate_temp dst temp_count

abbrev pub validate_operand : Operand → ℕ → Bool
validate_operand (const v) temp_count = true
validate_operand (temp t) temp_count = validate_temp t temp_count

abbrev validate_operands : List Operand → ℕ → Bool
validate_operands [] temp_count = true
validate_operands (op ∷ ops) temp_count =
    validate_operand op temp_count && validate_operands ops temp_count

abbrev named : String → Bool
named name = not (str_eq name "")

-- The fields of a struct have names, no two the same.
abbrev validate_fields : List String → List StructFieldInit → ℕ → Bool
unfolding mem_label
validate_fields seen [] temp_count = true
validate_fields seen (f ∷ fields) temp_count =
    named f.name
    && not (mem_label f.name seen)
    && validate_operand f.src temp_count
    && validate_fields (f.name ∷ seen) fields temp_count

unfoldable pub validate_instr : Instr → ℕ → List String → Bool
unfolding is_valid_bin_op mem_label validate_fields
validate_instr (load_var dst name addr true ref_temp) n declared =
    validate_temp ref_temp n && validate_temp dst n
validate_instr (load_var dst name addr false ref_temp) n declared =
    named name && mem_label name declared && validate_temp dst n
validate_instr (store_var name src true ref_temp) n declared =
    validate_temp ref_temp n && validate_operand src n
validate_instr (store_var name src false ref_temp) n declared = named name && validate_operand src n
validate_instr (bin_op dst op lhs rhs) n declared =
    is_valid_bin_op op && validate_temp dst n && validate_operand lhs n && validate_operand rhs n
validate_instr (call dst callee args) n declared =
    named callee && validate_dst dst n && validate_operands args n
validate_instr (call_closure dst closure args) n declared =
    validate_dst dst n && validate_operand closure n && validate_operands args n
validate_instr (make_array dst elems) n declared = validate_temp dst n && validate_operands elems n
validate_instr (index unchecked dst base idx) n declared =
    validate_temp dst n && validate_operand base n && validate_operand idx n
validate_instr (set_index unchecked base idx src) n declared =
    validate_operand base n && validate_operand idx n && validate_operand src n
validate_instr (make_struct dst name fields) n declared =
    named name && validate_temp dst n && validate_fields [] fields n
validate_instr (get_field dst src field) n declared =
    named field && validate_temp dst n && validate_temp src n
validate_instr (field_addr dst src field) n declared =
    named field && validate_temp dst n && validate_temp src n
validate_instr (set_field src field value) n declared =
    named field && validate_temp src n && validate_operand value n
validate_instr (index_addr dst base idx) n declared =
    validate_temp dst n && validate_temp base n && validate_operand idx n

abbrev validate_instrs : List Instr → ℕ → List String → Bool
unfolding validate_instr
validate_instrs [] n declared = true
validate_instrs (inst ∷ instrs) n declared =
    validate_instr inst n declared && validate_instrs instrs n declared

abbrev validate_target : String → List String → Bool
unfolding mem_label
validate_target target labels = named target && mem_label target labels

unfoldable pub validate_term : Term → List String → ℕ → Bool
unfolding validate_target
validate_term no_term labels n = false
validate_term (jump target) labels n = validate_target target labels
validate_term (branch cond then_target else_target) labels n =
    validate_operand cond n
    && validate_target then_target labels
    && validate_target else_target labels
validate_term (return none) labels n = true
validate_term (return (some op)) labels n = validate_operand op n

unfoldable pub validate_block : Block → List String → ℕ → List String → Bool
unfolding validate_instrs validate_term
validate_block blk labels n declared =
    validate_instrs blk.instr n declared && validate_term blk.term labels n

abbrev validate_blocks : List Block → List String → ℕ → List String → Bool
unfolding validate_block
validate_blocks [] labels n declared = true
validate_blocks (blk ∷ blocks) labels n declared =
    validate_block blk labels n declared && validate_blocks blocks labels n declared

-- The labels of the blocks, `none` where one is empty or stands twice; `labels` are those before.
unfoldable pub collect_labels : List String → List Block → Option (List String)
unfolding mem_label
collect_labels labels [] = some labels
collect_labels labels (blk ∷ blocks) =
    if named blk.label && not (mem_label blk.label labels)
    then collect_labels (blk.label ∷ labels) blocks
    else none

abbrev param_names : List String → List Var → Option (List String)
unfolding mem_label
param_names declared [] = some declared
param_names declared (p ∷ ps) =
    if named p.name && not (mem_label p.name declared)
    then param_names (p.name ∷ declared) ps
    else none

abbrev stored_names : List String → List Instr → List String
stored_names declared [] = declared
stored_names declared (store_var name src is_ref ref_temp ∷ instrs) =
    stored_names (if named name then name ∷ declared else declared) instrs
stored_names declared (inst ∷ instrs) = stored_names declared instrs

abbrev block_names : List String → List Block → List String
block_names declared [] = declared
block_names declared (blk ∷ blocks) = block_names (stored_names declared blk.instr) blocks

-- `collectDeclaredVars`: a name may stand more than once.
unfoldable pub collect_declared_vars : Function → Option (List String)
unfolding param_names
collect_declared_vars fn = elim (param_names [] fn.params) [
  | none ↦ none
  | some declared ↦ some (block_names declared fn.blocks)
]

abbrev pub is_empty : List Block → Bool
is_empty [] = true
is_empty (blk ∷ blocks) = false

-- `validateFunction` up to the definite assignments.
unfoldable pub validate_function : Function → Bool
unfolding collect_labels collect_declared_vars validate_blocks
validate_function fn = if is_empty fn.blocks then false else elim (collect_labels [] fn.blocks) [
  | none ↦ false
  | some labels ↦ elim (collect_declared_vars fn) [
    | none ↦ false
    | some declared ↦ validate_blocks fn.blocks labels fn.temp_count declared
  ]
]
