-- ===== src/Ir/Bounds/Remap.antt =====
-- The temps that `remapInstr` and `inlineCall` of compiler/stage0/internal/ir/opt.go give to an inlined
-- body.
use dast_lang.Base.{
  if◌then◌else◌, ℕ, zero, suc, ◌+◌, ◌<◌, ◌≤◌, ◌==◌, Bool, true, false, When, Option, none, some,
  List, [], ◌∷◌, arith, Bool-cases, inl, inr, option_holds, String, ◌≡◌,
}
use dast_lang.Ir.Inline.{
  TempMap, remap, remap_operand, remap_operands, remap_fields, remap_instr, remap_instrs,
  fill_temp_map, ret_dst,
}
use dast_lang.Ir.Syntax.{
  Operand, const, temp, StructFieldInit, Instr, load_var, store_var, bin_op, call, call_closure,
  make_array, index, set_index, make_struct, get_field, field_addr, set_field, index_addr,
}
use dast_lang.Ir.Bounds.Below.{
  OperandBelow, OperandsBelow, FieldsBelow, DstBelow, InstrBelow, AllBelow,
}

-- The instructions that `remapInstr` has a case for.
abbrev pub Remapped : Instr → Type 0
Remapped (call_closure dst closure args) = ⊥
Remapped (field_addr dst src field) = ⊥
Remapped (index_addr dst base idx) = ⊥
Remapped _ = Unit

abbrev pub AllRemapped : List Instr → Type 0
AllRemapped [] = Unit
AllRemapped (inst ∷ instrs) = Remapped inst × AllRemapped instrs

module _ (m : TempMap) (prefix : String) (k n : ℕ) (into : (t : ℕ) → t < k → remap m t < n) where
  operand-Remapped : (op : Operand) → OperandBelow k op → OperandBelow n (remap_operand m op)
  operand-Remapped (const v) h = tt
  operand-Remapped (temp t) h = into t h

  operands-Remapped :
      (ops : List Operand) → OperandsBelow k ops → OperandsBelow n (remap_operands m ops)
  operands-Remapped [] h = tt
  operands-Remapped (op ∷ ops) h = (operand-Remapped op h.0, operands-Remapped ops h.1)

  fields-Remapped :
      (fields : List StructFieldInit) → FieldsBelow k fields → FieldsBelow n (remap_fields m fields)
  fields-Remapped [] h = tt
  fields-Remapped (f ∷ fields) h = (operand-Remapped f.src h.0, fields-Remapped fields h.1)

  when-Remapped : (b : Bool) (t : ℕ) → When b (t < k) → When b ((if b then remap m t else t) < n)
  when-Remapped true t h = into t h
  when-Remapped false t h = tt

  instr-Remapped :
      (inst : Instr) → Remapped inst → InstrBelow k inst → InstrBelow n (remap_instr m prefix inst)
  unfolding remap_instr
  instr-Remapped (load_var dst name addr is_ref r) c h = (into dst h.0, when-Remapped is_ref r h.1)
  instr-Remapped (store_var name src is_ref r) c h =
      (operand-Remapped src h.0, when-Remapped is_ref r h.1)
  instr-Remapped (bin_op dst op lhs rhs) c h =
      (into dst h.0, operand-Remapped lhs h.1, operand-Remapped rhs h.2)
  instr-Remapped (call (some dst) callee args) c h = (into dst h.0, operands-Remapped args h.1)
  instr-Remapped (call none callee args) c h = (tt, operands-Remapped args h.1)
  instr-Remapped (make_array dst elems) c h = (into dst h.0, operands-Remapped elems h.1)
  instr-Remapped (index unchecked dst base idx) c h =
      (into dst h.0, operand-Remapped base h.1, operand-Remapped idx h.2)
  instr-Remapped (set_index unchecked base idx src) c h =
      (operand-Remapped base h.0, operand-Remapped idx h.1, operand-Remapped src h.2)
  instr-Remapped (make_struct dst name fields) c h = (into dst h.0, fields-Remapped fields h.1)
  instr-Remapped (get_field dst src field) c h = (into dst h.0, into src h.1)
  instr-Remapped (set_field src field value) c h = (into src h.0, operand-Remapped value h.1)
  instr-Remapped (call_closure dst closure args) c h = absurd c
  instr-Remapped (field_addr dst src field) c h = absurd c
  instr-Remapped (index_addr dst base idx) c h = absurd c

  pub instrs-Remapped :
      (instrs : List Instr)
      → AllRemapped instrs
      → AllBelow k instrs
      → AllBelow n (remap_instrs m prefix instrs)
  instrs-Remapped [] c h = tt
  instrs-Remapped (inst ∷ instrs) c h =
      (instr-Remapped inst c.0 h.0, instrs-Remapped instrs c.1 h.1)

-- What the map does with the temps from `t` on.
pub record Fills (dst : Option ℕ) (rounds t next : ℕ) (r : TempMap × ℕ) : Type 0 where
  pub grows : next ≤ r.1
  pub into : (u : ℕ) → DstBelow r.1 dst → t ≤ u → u < t + rounds → remap r.0 u < r.1

filled_first :
    (dst : Option ℕ) (rounds t next to : ℕ) (r : TempMap × ℕ) (next' : ℕ)
    → next ≤ next'
    → (DstBelow r.1 dst → to < r.1)
    → Fills dst rounds (t + 1) next' r
    → Fills dst (suc rounds) t next ((t, to) ∷ r.0, r.1)
unfolding remap
filled_first dst rounds t next to r next' le first later = record {
  grows = omega (arith, later.grows, le);
  into = λ u below from under. elim (Bool-cases (t == u)) [
    | inl same ↦ ground (arith, first below)
    | inr other ↦ ground (arith, later.into u below (ground arith) (ground arith))
  ];
}

ret_dst-Below :
    (ret dst : Option ℕ) (t d n : ℕ) → ret_dst ret dst t ≡ some d → DstBelow n dst → d < n
ret_dst-Below (some ret) (some dst) t d n e below = elim (Bool-cases (t == ret)) [
  | inl same ↦ ground arith
  | inr other ↦ absurd (ground arith)
]
ret_dst-Below none dst t d n e below = absurd (ground arith)
ret_dst-Below (some ret) none t d n e below = absurd (ground arith)

pub fill_temp_map-Fills :
    (ret dst : Option ℕ) (rounds t next : ℕ)
    → Fills dst rounds t next (fill_temp_map ret dst rounds t next)
unfolding fill_temp_map
fill_temp_map-Fills ret dst zero t next = record {
  grows = omega arith;
  into = λ u below from under. absurd (omega (arith, from, under));
}
fill_temp_map-Fills ret dst (suc rounds) t next =
    let rest = fill_temp_map-Fills ret dst rounds (t + 1) in
    option_holds (Fills dst (suc rounds) t next) (ret_dst ret dst t) _ _
      (λ _.
        filled_first dst rounds t next next (fill_temp_map ret dst rounds (t + 1) (next + 1))
          (next + 1) (omega arith) (λ _. omega (arith, (rest (next + 1)).grows)) (rest (next + 1)))
      (λ d e.
        filled_first dst rounds t next d (fill_temp_map ret dst rounds (t + 1) next) next
          (omega arith) (ret_dst-Below ret dst t d _ e) (rest next))
