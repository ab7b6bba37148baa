-- ===== src/Ir/Inline.antt =====
-- `collectInlineCandidates`, `containsCall`, `inlineCalls`, `inlineCall` and `remapInstr` of
-- compiler/stage0/internal/ir/opt.go.
use dast_lang.Ir.Syntax.{
  set_field, get_field, make_struct, set_index, index, make_array, bin_op, store_var, temp,
  StructFieldInit, Var, const, load_var, Operand, Instr, call, return, Block, Function,
}
use dast_lang.Base.{
  ◌%◌, ◌/◌, ◌==◌, ltb, zero, suc, ◌++◌, ℕ, ◌+◌, String, Bool, true, false, ◌||◌, Option, none, some,
  List, [], ◌∷◌, if◌then◌else◌,
}
use Prim.Native.String.{◌++◌ as str_append}
use text.Mathlib.Text.{◌==◌ as str_eq}

-- `retOp` is `none` for a return without a value.
pub record InlineCandidate : Type 0 where
  pub fn : Function
  pub ret_op : Option Operand

abbrev is_call : Instr → Bool
is_call (call _ _ _) = true
is_call _ = false

unfoldable pub contains_call : List Instr → Bool
contains_call [] = false
contains_call (inst ∷ instrs) = is_call inst || contains_call instrs

abbrev pub candidate_of : Function → List Block → Option InlineCandidate
candidate_of fn [] = none
candidate_of fn (blk ∷ _ ∷ _) = none
candidate_of fn (blk ∷ []) = elim blk.term [
  | return value ↦
      if contains_call blk.instr then none else some (record { fn = fn; ret_op = value })
  | _ ↦ none
]

-- A program's functions, and a map by their names, are lists of pairs.
unfoldable pub collect_inline_candidates :
    List (String × Function) → List (String × InlineCandidate)
unfolding contains_call
collect_inline_candidates [] = []
collect_inline_candidates ((name, fn) ∷ fns) = elim (candidate_of fn fn.blocks) [
  | none ↦ collect_inline_candidates fns
  | some cand ↦ (name, cand) ∷ collect_inline_candidates fns
]

unfoldable pub lookup_name {ℓ} : {A : Type ℓ} → String → List (String × A) → Option A
lookup_name key [] = none
lookup_name key ((name, a) ∷ rest) = if str_eq name key then some a else lookup_name key rest

abbrev digit : ℕ → String
digit d =
    if d == 0
    then "0"
    else if d == 1
    then "1"
    else if d == 2
    then "2"
    else if d == 3
    then "3"
    else if d == 4
    then "4"
    else if d == 5
    then "5"
    else if d == 6
    then "6"
    else if d == 7
    then "7"
    else if d == 8
    then "8"
    else "9"

-- `%d` of a number, with the digits behind it; a number has at most as many digits as its value + 1.
decimal_onto : ℕ → ℕ → String → String
decimal_onto zero n text = text
decimal_onto (suc fuel) n text = elim (ltb n 10) [
  | true ↦ str_append (digit n) text
  | false ↦ decimal_onto fuel (n / 10) (str_append (digit (n % 10)) text)
]

-- `fmt.Sprintf("_inl%d_", inlineID)`.
unfoldable pub inline_prefix : ℕ → String
unfolding decimal_onto
inline_prefix inline_id =
    str_append "_inl" (str_append (decimal_onto (suc inline_id) inline_id "") "_")

abbrev pub TempMap : Type 0
TempMap = List (ℕ × ℕ)

unfoldable pub remap : TempMap → ℕ → ℕ
remap [] t = t
remap ((from, to) ∷ temps) t = if from == t then to else remap temps t

abbrev pub remap_operand : TempMap → Operand → Operand
remap_operand m (const v) = const v
remap_operand m (temp t) = temp (remap m t)

abbrev pub remap_operands : TempMap → List Operand → List Operand
remap_operands m [] = []
remap_operands m (op ∷ ops) = remap_operand m op ∷ remap_operands m ops

abbrev pub remap_fields : TempMap → List StructFieldInit → List StructFieldInit
remap_fields m [] = []
remap_fields m (f ∷ fields) =
    record { name = f.name; src = remap_operand m f.src } ∷ remap_fields m fields

abbrev remap_dst : TempMap → Option ℕ → Option ℕ
remap_dst m none = none
remap_dst m (some dst) = some (remap m dst)

-- `tempMap` is `m`, and `mapVar` puts `prefix` in front of a name. The default case of the switch
-- returns the instruction as it is.
unfoldable pub remap_instr : TempMap → String → Instr → Instr
unfolding remap
remap_instr m prefix (load_var dst name addr is_ref ref_temp) =
    load_var (remap m dst) (str_append prefix name) addr is_ref
      (if is_ref then remap m ref_temp else ref_temp)
remap_instr m prefix (store_var name src is_ref ref_temp) =
    store_var (str_append prefix name) (remap_operand m src) is_ref
      (if is_ref then remap m ref_temp else ref_temp)
remap_instr m prefix (bin_op dst op lhs rhs) =
    bin_op (remap m dst) op (remap_operand m lhs) (remap_operand m rhs)
remap_instr m prefix (call dst callee args) = call (remap_dst m dst) callee (remap_operands m args)
remap_instr m prefix (make_array dst elems) = make_array (remap m dst) (remap_operands m elems)
remap_instr m prefix (index unchecked dst base idx) =
    index false (remap m dst) (remap_operand m base) (remap_operand m idx)
remap_instr m prefix (set_index unchecked base idx src) =
    set_index false (remap_operand m base) (remap_operand m idx) (remap_operand m src)
remap_instr m prefix (make_struct dst name fields) =
    make_struct (remap m dst) name (remap_fields m fields)
remap_instr m prefix (get_field dst src field) = get_field (remap m dst) (remap m src) field
remap_instr m prefix (set_field src field value) =
    set_field (remap m src) field (remap_operand m value)
remap_instr m prefix inst = inst

-- The temp that the candidate returns.
abbrev pub ret_temp : Option Operand → Option ℕ
ret_temp (some (temp t)) = some t
ret_temp _ = none

-- `t` is the returned temp, and the call has a destination: then its destination.
abbrev pub ret_dst : Option ℕ → Option ℕ → ℕ → Option ℕ
ret_dst (some ret) (some dst) t = if t == ret then some dst else none
ret_dst _ _ t = none

-- The loop `for t := t; t < t + rounds; t++` that fills `tempMap`; the second result is `nextTemp`.
unfoldable pub fill_temp_map : Option ℕ → Option ℕ → ℕ → ℕ → ℕ → TempMap × ℕ
fill_temp_map ret dst zero t next_temp = ([], next_temp)
fill_temp_map ret dst (suc rounds) t next_temp = elim (ret_dst ret dst t) [
  | some d ↦ let (m, n) = fill_temp_map ret dst rounds (t + 1) next_temp in ((t, d) ∷ m, n)
  | none ↦
      let (m, n) = fill_temp_map ret dst rounds (t + 1) (next_temp + 1) in ((t, next_temp) ∷ m, n)
]

-- Stores of the arguments under the parameters' mapped names, as many as there are of both.
abbrev pub store_params : String → List Var → List Operand → List Instr
store_params prefix (param ∷ params) (arg ∷ args) =
    store_var (str_append prefix param.name) arg false 0 ∷ store_params prefix params args
store_params prefix _ _ = []

abbrev pub remap_instrs : TempMap → String → List Instr → List Instr
remap_instrs m prefix [] = []
remap_instrs m prefix (inst ∷ instrs) = remap_instr m prefix inst ∷ remap_instrs m prefix instrs

abbrev pub first_instrs : List Block → List Instr
first_instrs [] = []
first_instrs (blk ∷ _) = blk.instr

-- `inlineCall` for a call with destination `dst` and arguments `args`; the second result is
-- `nextTemp`.
unfoldable pub inline_call : Option ℕ → List Operand → InlineCandidate → ℕ → ℕ → List Instr × ℕ
unfolding fill_temp_map remap_instr inline_prefix
inline_call dst args cand next_temp inline_id =
    let (m, n) = fill_temp_map (ret_temp cand.ret_op) dst cand.fn.temp_count 0 next_temp in
    let prefix = inline_prefix inline_id in
    (
      store_params prefix cand.fn.params args
          ++ remap_instrs m prefix (first_instrs cand.fn.blocks),
      n,
    )

-- The call needs a value, and the candidate returns no temp.
abbrev pub wants_value : Option ℕ → Option Operand → Bool
wants_value none op = false
wants_value (some dst) none = true
wants_value (some dst) (some (const v)) = true
wants_value (some dst) (some (temp t)) = false

-- The candidate for a call of `callee` in a function named `caller`.
unfoldable pub inline_target :
    List (String × InlineCandidate) → String → Option ℕ → String → Option InlineCandidate
unfolding lookup_name
inline_target inline caller dst callee = elim (lookup_name callee inline) [
  | none ↦ none
  | some cand ↦ if str_eq callee caller || wants_value dst cand.ret_op then none else some cand
]

-- The counters `nextTemp` and `inlineID`.
abbrev pub Counters : Type 0
Counters = ℕ × ℕ

-- The loop over the instructions of a block.
unfoldable pub inline_instrs :
    List (String × InlineCandidate) → String → List Instr → Counters → List Instr × Counters
unfolding inline_target inline_call
inline_instrs inline caller [] counters = ([], counters)
inline_instrs inline caller (call dst callee args ∷ instrs) (next_temp, inline_id) =
    elim (inline_target inline caller dst callee) [
      | none ↦
          let (out, c) = inline_instrs inline caller instrs (next_temp, inline_id) in
          (call dst callee args ∷ out, c)
      | some cand ↦
          let (inlined, n) = inline_call dst args cand next_temp inline_id in
          let (out, c) = inline_instrs inline caller instrs (n, inline_id + 1) in
          (inlined ++ out, c)
    ]
inline_instrs inline caller (inst ∷ instrs) counters =
    let (out, c) = inline_instrs inline caller instrs counters in (inst ∷ out, c)

abbrev pub inline_blocks :
    List (String × InlineCandidate) → String → List Block → Counters → List Block × Counters
inline_blocks inline caller [] counters = ([], counters)
inline_blocks inline caller (blk ∷ blocks) counters =
    let (instr, c) = inline_instrs inline caller blk.instr counters in
    let (out, c') = inline_blocks inline caller blocks c in (record blk { instr = instr } ∷ out, c')

unfoldable pub inline_calls : List (String × InlineCandidate) → Function → Function
unfolding inline_instrs
inline_calls inline fn =
    let (blocks, c) = inline_blocks inline fn.name fn.blocks (fn.temp_count, 0) in
    record fn { blocks = blocks; temp_count = c.0 }
