-- ===== src/Ir/Validate/Laws.antt =====
-- What `validateFunction` of compiler/stage0/internal/ir/ir.go tests.
use text.Mathlib.Text.{◌==◌ as str_eq}
use mathlib.Core.Path.{subst}
use dast_lang.Base.{
  sym, ℕ, ◌<◌, String, true, false, not, ◌&&◌, both, all_three, all_four, Option, none, some, List,
  [], ◌∷◌, ltb, ◌≡◌, ◌⊎◌, inl, inr, arith, Bool-cases, Option-cases,
}
use mathlib.Core.Option.{some-injective}
use dast_lang.Ir.Bounds.Below.{
  OperandBelow, OperandsBelow, FieldsBelow, DstBelow, InstrBelow, AllBelow, TermBelow, BlocksBelow,
}
use dast_lang.Ir.Prune.{mem_label, find_block}
use dast_lang.Ir.Validate.{
  is_valid_bin_op, validate_dst, validate_operand, validate_operands, validate_fields,
  validate_instr, validate_instrs, validate_term, validate_target, validate_block, validate_blocks,
  validate_function, collect_labels, collect_declared_vars, is_empty, named,
}
use dast_lang.Ir.Syntax.{
  Operand, const, temp, StructFieldInit, Instr, load_var, store_var, bin_op, call, call_closure,
  make_array, index, set_index, make_struct, get_field, field_addr, set_field, index_addr, Term,
  jump, branch, return, no_term, Block, Function,
}

abbrev pub Found : String → List Block → Type 0
Found label blocks = (blk : Block) × (find_block label blocks ≡ some blk)

-- Every label that a terminator leads to names a block.
abbrev pub TargetsFound : List Block → Term → Type 0
TargetsFound blocks (jump target) = Found target blocks
TargetsFound blocks (branch cond then_target else_target) =
    Found then_target blocks × Found else_target blocks
TargetsFound blocks (return value) = Unit
TargetsFound blocks no_term = ⊥

abbrev pub AllTargetsFound : List Block → List Block → Type 0
AllTargetsFound all [] = Unit
AllTargetsFound all (blk ∷ blocks) = TargetsFound all blk.term × AllTargetsFound all blocks

ltb-lt : (t n : ℕ) → ltb t n ≡ true → t < n
ltb-lt t n h = ground arith

operand_valid : (op : Operand) (n : ℕ) → validate_operand op n ≡ true → OperandBelow n op
operand_valid (const v) n h = tt
operand_valid (temp t) n h = ltb-lt t n h

operands_valid : (ops : List Operand) (n : ℕ) → validate_operands ops n ≡ true → OperandsBelow n ops
operands_valid [] n h = tt
operands_valid (op ∷ ops) n h =
    let (p, q) = both h in (operand_valid op n p, operands_valid ops n q)

fields_valid :
    (seen : List String) (fields : List StructFieldInit) (n : ℕ)
    → validate_fields seen fields n ≡ true
    → FieldsBelow n fields
unfolding validate_fields
fields_valid seen [] n h = tt
fields_valid seen (f ∷ fields) n h =
    let (p, q, r, s) =
      all_four {a = named f.name} {b = not (mem_label f.name seen)}
        {d = validate_fields (f.name ∷ seen) fields n} h in
    (operand_valid f.src n r, fields_valid (f.name ∷ seen) fields n s)

dst_valid : (dst : Option ℕ) (n : ℕ) → validate_dst dst n ≡ true → DstBelow n dst
dst_valid none n h = tt
dst_valid (some dst) n h = ltb-lt dst n h

instr_valid :
    (inst : Instr) (n : ℕ) (declared : List String)
    → validate_instr inst n declared ≡ true
    → InstrBelow n inst
unfolding validate_instr
instr_valid (load_var dst name addr true r) n declared h =
    let (p, q) = both h in (ltb-lt dst n q, ltb-lt r n p)
instr_valid (load_var dst name addr false r) n declared h =
    let (p, q, s) = all_three {a = named name} {b = mem_label name declared} h in
    (ltb-lt dst n s, tt)
instr_valid (store_var name src true r) n declared h =
    let (p, q) = both h in (operand_valid src n q, ltb-lt r n p)
instr_valid (store_var name src false r) n declared h =
    let (p, q) = both {a = named name} h in (operand_valid src n q, tt)
instr_valid (bin_op dst op lhs rhs) n declared h =
    let (p, q, r, s) = all_four {a = is_valid_bin_op op} h in
    (ltb-lt dst n q, operand_valid lhs n r, operand_valid rhs n s)
instr_valid (call dst callee args) n declared h =
    let (p, q, r) = all_three {a = named callee} h in (dst_valid dst n q, operands_valid args n r)
instr_valid (call_closure dst closure args) n declared h =
    let (p, q, r) = all_three h in
    (dst_valid dst n p, operand_valid closure n q, operands_valid args n r)
instr_valid (make_array dst elems) n declared h =
    let (p, q) = both h in (ltb-lt dst n p, operands_valid elems n q)
instr_valid (index unchecked dst base idx) n declared h =
    let (p, q, r) = all_three h in (ltb-lt dst n p, operand_valid base n q, operand_valid idx n r)
instr_valid (set_index unchecked base idx src) n declared h =
    let (p, q, r) = all_three h in
    (operand_valid base n p, operand_valid idx n q, operand_valid src n r)
instr_valid (make_struct dst name fields) n declared h =
    let (p, q, r) = all_three {a = named name} h in (ltb-lt dst n q, fields_valid [] fields n r)
instr_valid (get_field dst src field) n declared h =
    let (p, q, r) = all_three {a = named field} h in (ltb-lt dst n q, ltb-lt src n r)
instr_valid (field_addr dst src field) n declared h =
    let (p, q, r) = all_three {a = named field} h in (ltb-lt dst n q, ltb-lt src n r)
instr_valid (set_field src field value) n declared h =
    let (p, q, r) = all_three {a = named field} h in (ltb-lt src n q, operand_valid value n r)
instr_valid (index_addr dst base idx) n declared h =
    let (p, q, r) = all_three h in (ltb-lt dst n p, ltb-lt base n q, operand_valid idx n r)

instrs_valid :
    (instrs : List Instr) (n : ℕ) (declared : List String)
    → validate_instrs instrs n declared ≡ true
    → AllBelow n instrs
unfolding validate_instrs
instrs_valid [] n declared h = tt
instrs_valid (inst ∷ instrs) n declared h =
    let (p, q) = both h in (instr_valid inst n declared p, instrs_valid instrs n declared q)

-- A collected label names a block, or was there before.
find_block-later :
    (label : String) (blk : Block) (blocks : List Block)
    → Found label blocks
    → Found label (blk ∷ blocks)
unfolding find_block
find_block-later label blk blocks (later, there) = (later, ground arith)

find_block-first :
    (label : String) (blk : Block) (blocks : List Block)
    → str_eq blk.label label ≡ true
    → Found label (blk ∷ blocks)
unfolding find_block
find_block-first label blk blocks same = elim (Option-cases (find_block label blocks)) [
  | inl missing ↦ (blk, ground arith)
  | inr (later, there) ↦ (later, ground arith)
]

label-Found :
    (before : List String) (blocks : List Block) (labels : List String) (label : String)
    → collect_labels before blocks ≡ some labels
    → mem_label label labels ≡ true
    → (mem_label label before ≡ true) ⊎ Found label blocks
unfolding collect_labels mem_label
label-Found before [] labels label e there =
    let at : some before ≡ some labels = ground arith in
    inl (subst (λ z. mem_label label z ≡ true) (sym (some-injective _ _ at)) there)
label-Found before (blk ∷ blocks) labels label e there =
    elim (Bool-cases (named blk.label && not (mem_label blk.label before))) [
      | inr refused ↦ absurd (ground arith)
      | inl fresh ↦
          elim (label-Found (blk.label ∷ before) blocks labels label (ground arith) there) [
            | inr found ↦ inr (find_block-later label blk blocks found)
            | inl earlier ↦ elim (Bool-cases (str_eq blk.label label)) [
              | inl same ↦ inr (find_block-first label blk blocks same)
              | inr differs ↦ inl (ground arith)
            ]
          ]
    ]

target_valid :
    (blocks : List Block) (labels : List String) (target : String)
    → collect_labels [] blocks ≡ some labels
    → validate_target target labels ≡ true
    → Found target blocks
unfolding validate_target mem_label
target_valid blocks labels target collected h =
    let (p, q) = both {a = named target} h in
    elim (label-Found [] blocks labels target collected q) [
      | inl before ↦ absurd (ground arith)
      | inr found ↦ found
    ]

term_valid :
    (blocks : List Block) (labels : List String) (n : ℕ) (term : Term)
    → collect_labels [] blocks ≡ some labels
    → validate_term term labels n ≡ true
    → TermBelow n term × TargetsFound blocks term
unfolding validate_term
term_valid blocks labels n no_term collected h = absurd (ground arith)
term_valid blocks labels n (jump target) collected h =
    (tt, target_valid blocks labels target collected h)
term_valid blocks labels n (branch cond then_target else_target) collected h =
    let (p, q, r) = all_three {b = validate_target then_target labels} h in
    (
      operand_valid cond n p,
      (
        target_valid blocks labels then_target collected q,
        target_valid blocks labels else_target collected r,
      ),
    )
term_valid blocks labels n (return none) collected h = (tt, tt)
term_valid blocks labels n (return (some op)) collected h = (operand_valid op n h, tt)

blocks_valid :
    (all blocks : List Block) (labels declared : List String) (n : ℕ)
    → collect_labels [] all ≡ some labels
    → validate_blocks blocks labels n declared ≡ true
    → BlocksBelow n blocks × AllTargetsFound all blocks
unfolding validate_blocks validate_block
blocks_valid all [] labels declared n collected h = (tt, tt)
blocks_valid all (blk ∷ blocks) labels declared n collected h =
    let (p, later) =
      both {a = validate_block blk labels n declared} {b = validate_blocks blocks labels n declared}
        h in
    let (i, t) =
      both {a = validate_instrs blk.instr n declared} {b = validate_term blk.term labels n} p in
    let (below, found) = term_valid all labels n blk.term collected t in
    let (all_below, all_found) = blocks_valid all blocks labels declared n collected later in
    ((instrs_valid blk.instr n declared i, below, all_below), (found, all_found))

-- In a function that is valid all temps are below its count, every block has a terminator, and every
-- label that a terminator leads to names a block.
pub validate_function-valid :
    (fn : Function)
    → validate_function fn ≡ true
    → BlocksBelow fn.temp_count fn.blocks × AllTargetsFound fn.blocks fn.blocks
unfolding validate_function
validate_function-valid fn h = elim (Bool-cases (is_empty fn.blocks)) [
  | inl empty ↦ absurd (ground arith)
  | inr nonempty ↦ elim (Option-cases (collect_labels [] fn.blocks)) [
    | inl refused ↦ absurd (ground arith)
    | inr (labels, collected) ↦ elim (Option-cases (collect_declared_vars fn)) [
      | inl refused ↦ absurd (ground arith)
      | inr (declared, names) ↦
          blocks_valid fn.blocks fn.blocks labels declared fn.temp_count collected (ground arith)
    ]
  ]
]
