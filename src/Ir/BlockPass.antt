-- ===== src/Ir/BlockPass.antt =====
-- `optimizeBlock`, `scanArraySafety`, `instrTemps`, `optimizeFunction` and `Optimize` of
-- compiler/stage0/internal/ir/opt.go.
use dast_lang.Ir.Syntax.{
  get_field, BinaryOp, Value, int, bool, Operand, temp, const, StructFieldInit, Instr, load_var,
  store_var, bin_op, call, make_array, index, set_index, make_struct, set_field, Term, jump, branch,
  Block, Function,
}
use text.Mathlib.Text.{◌==◌ as str_eq}
use dast_lang.Base.{
  ℕ, String, Bool, true, false, not, ◌&&◌, ◌||◌, Option, none, some, List, [], ◌∷◌, ◌++◌, ◌==◌, ltb,
  if◌then◌else◌, length,
}
use dast_lang.Base.Int64.{is_negative}
use dast_lang.Ir.Fold.{fold_binary}
use dast_lang.Ir.Inline.{InlineCandidate, collect_inline_candidates, inline_calls}
use dast_lang.Ir.Prune.{prune_unreachable}

abbrev operand_temps : Operand → List ℕ
operand_temps (temp t) = t ∷ []
operand_temps (const v) = []

abbrev operands_temps : List Operand → List ℕ
operands_temps [] = []
operands_temps (op ∷ ops) = operand_temps op ++ operands_temps ops

abbrev fields_temps : List StructFieldInit → List ℕ
fields_temps [] = []
fields_temps (f ∷ fields) = operand_temps f.src ++ fields_temps fields

abbrev dst_temps : Option ℕ → List ℕ
dst_temps none = []
dst_temps (some dst) = dst ∷ []

-- The default case of the switch gives no temps.
unfoldable pub instr_temps : Instr → List ℕ
instr_temps (load_var dst name addr is_ref ref_temp) =
    if is_ref then dst ∷ ref_temp ∷ [] else dst ∷ []
instr_temps (store_var name src is_ref ref_temp) =
    if is_ref then ref_temp ∷ operand_temps src else operand_temps src
instr_temps (bin_op dst op lhs rhs) = dst ∷ (operand_temps lhs ++ operand_temps rhs)
instr_temps (call dst callee args) = dst_temps dst ++ operands_temps args
instr_temps (make_array dst elems) = dst ∷ operands_temps elems
instr_temps (index unchecked dst base idx) = dst ∷ (operand_temps base ++ operand_temps idx)
instr_temps (set_index unchecked base idx src) =
    operand_temps base ++ (operand_temps idx ++ operand_temps src)
instr_temps (make_struct dst name fields) = dst ∷ fields_temps fields
instr_temps (get_field dst src field) = dst ∷ src ∷ []
instr_temps (set_field src field value) = src ∷ operand_temps value
instr_temps _ = []

-- The length of the last array that the block makes in a temp.
unfoldable pub array_length : ℕ → List Instr → Option ℕ
array_length t [] = none
array_length t (make_array dst elems ∷ instrs) = elim (array_length t instrs) [
  | some n ↦ some n
  | none ↦ if dst == t then some (length elems) else none
]
array_length t (_ ∷ instrs) = array_length t instrs

abbrev pub mem_temp : ℕ → List ℕ → Bool
mem_temp t [] = false
mem_temp t (u ∷ temps) = u == t || mem_temp t temps

-- The instructions after which `scanArraySafety` holds an array's temp for unsafe.
abbrev pub escapes : ℕ → Instr → Bool
escapes t (make_array _ _) = false
escapes t (index _ _ _ _) = false
escapes t (set_index _ _ _ _) = false
escapes t inst = mem_temp t (instr_temps inst)

unfoldable pub any_escapes : ℕ → List Instr → Bool
unfolding instr_temps
any_escapes t [] = false
any_escapes t (inst ∷ instrs) = escapes t inst || any_escapes t instrs

-- `scanArraySafety` for one temp: `arrayLens[t]`, where `arraySafe[t]` holds.
unfoldable pub safe_length : List Instr → ℕ → Option ℕ
unfolding array_length any_escapes
safe_length instrs t = if any_escapes t instrs then none else array_length t instrs

-- The two maps of `optimizeBlock`: constants of temps and of variables.
pub record Consts : Type 0 where
  pub temps : ℕ → Option Value
  pub vars : String → Option Value

abbrev pub no_consts : Consts
no_consts = record { temps = λ _. none; vars = λ _. none }

abbrev pub set_temp : ℕ → Option Value → Consts → Consts
set_temp t v c = record c { temps = λ u. if u == t then v else c.temps u }

abbrev pub set_var : String → Option Value → Consts → Consts
set_var x v c = record c { vars = λ y. if str_eq y x then v else c.vars y }

abbrev pub forget_vars : Consts → Consts
forget_vars c = record c { vars = λ _. none }

-- `getOperandConst`.
abbrev pub operand_const : Consts → Operand → Option Value
operand_const c (const v) = some v
operand_const c (temp t) = c.temps t

abbrev pub fold_operands : BinaryOp → Option Value → Option Value → Option Value
fold_operands op (some l) (some r) = fold_binary op l r
fold_operands op _ _ = none

-- `idx >= 0 && idx < length` on an `int64`.
abbrev pub in_range : ℕ → ℕ → Bool
in_range idx length = not (is_negative idx) && ltb idx length

abbrev checked_by : Option Value → Option ℕ → Bool
checked_by (some (int idx _)) (some length) = in_range idx length
checked_by _ _ = false

abbrev base_length : List Instr → Operand → Option ℕ
base_length instrs (temp t) = safe_length instrs t
base_length instrs (const v) = none

-- May the bounds check of `base[idx]` be left out? `instrs` is the whole block.
unfoldable pub no_check_needed : List Instr → Consts → Operand → Operand → Bool
unfolding safe_length
no_check_needed instrs c base idx = checked_by (operand_const c idx) (base_length instrs base)

-- One round of the loop of `optimizeBlock`: the instruction with its mark, and the maps behind it.
unfoldable pub optimize_instr : List Instr → Instr → Consts → Instr × Consts
unfolding no_check_needed fold_binary
optimize_instr instrs (load_var dst name addr is_ref ref_temp) c = (
  load_var dst name addr is_ref ref_temp,
  (if is_ref
      then set_temp dst none c
      else if addr
      then set_var name none (set_temp dst none c)
      else set_temp dst (c.vars name) c),
)
optimize_instr instrs (store_var name src is_ref ref_temp) c = (
  store_var name src is_ref ref_temp,
  (if is_ref then forget_vars c else set_var name (operand_const c src) c),
)
optimize_instr instrs (bin_op dst op lhs rhs) c = (
  bin_op dst op lhs rhs,
  set_temp dst (fold_operands op (operand_const c lhs) (operand_const c rhs)) c,
)
optimize_instr instrs (call (some dst) callee args) c =
    (call (some dst) callee args, forget_vars (set_temp dst none c))
optimize_instr instrs (call none callee args) c = (call none callee args, forget_vars c)
optimize_instr instrs (make_array dst elems) c = (make_array dst elems, set_temp dst none c)
optimize_instr instrs (index unchecked dst base idx) c =
    (index (no_check_needed instrs c base idx || unchecked) dst base idx, set_temp dst none c)
optimize_instr instrs (set_index unchecked base idx src) c =
    (set_index (no_check_needed instrs c base idx || unchecked) base idx src, c)
optimize_instr instrs (make_struct dst name fields) c =
    (make_struct dst name fields, set_temp dst none c)
optimize_instr instrs (get_field dst src field) c = (get_field dst src field, set_temp dst none c)
optimize_instr instrs inst c = (inst, c)

unfoldable pub optimize_instrs : List Instr → List Instr → Consts → List Instr × Consts
unfolding optimize_instr
optimize_instrs instrs [] c = ([], c)
optimize_instrs instrs (inst ∷ later) c =
    let (inst', c') = optimize_instr instrs inst c in
    let (out, end) = optimize_instrs instrs later c' in (inst' ∷ out, end)

-- The jump that a branch on a known condition becomes.
abbrev pub decide_branch : Option Value → Operand → String → String → Term
decide_branch (some (bool true)) cond then_target else_target = jump then_target
decide_branch (some (bool false)) cond then_target else_target = jump else_target
decide_branch _ cond then_target else_target = branch cond then_target else_target

unfoldable pub optimize_term : Consts → Term → Term
optimize_term c (branch cond then_target else_target) =
    decide_branch (operand_const c cond) cond then_target else_target
optimize_term c term = term

unfoldable pub optimize_block : Block → Block
unfolding optimize_instrs optimize_term
optimize_block blk =
    let (instr, c) = optimize_instrs blk.instr blk.instr no_consts in
    record blk { instr = instr; term = optimize_term c blk.term }

abbrev pub optimize_blocks : List Block → List Block
optimize_blocks [] = []
optimize_blocks (blk ∷ blocks) = optimize_block blk ∷ optimize_blocks blocks

-- `optimizeFunction`, on a function whose calls are inlined: no blocks, nothing to do.
unfoldable pub optimize_function : List (String × InlineCandidate) → Function → Option Function
unfolding optimize_block
optimize_function inline fn =
    let inlined = inline_calls inline fn in
    prune_unreachable (record inlined { blocks = optimize_blocks inlined.blocks })

abbrev pub optimize_all :
    List (String × InlineCandidate) → List (String × Function) → Option (List (String × Function))
optimize_all inline [] = some []
optimize_all inline ((name, fn) ∷ fns) = elim (optimize_function inline fn) [
  | none ↦ none
  | some fn' ↦ elim (optimize_all inline fns) [
    | none ↦ none
    | some fns' ↦ some ((name, fn') ∷ fns')
  ]
]

-- `Optimize` on the program's functions. A candidate makes no call, so that its own optimisation
-- changes its bounds-check marks alone, which `remapInstr` drops: the order of the map does not
-- matter.
unfoldable pub optimize : List (String × Function) → Option (List (String × Function))
unfolding optimize_function
optimize fns = optimize_all (collect_inline_candidates fns) fns
