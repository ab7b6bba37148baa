-- ===== src/Ir/Bounds/Inlined.antt =====
-- The temps of a function under `inlineCalls` of compiler/stage0/internal/ir/opt.go.
use mathlib.Core.Path.{subst}
use text.Mathlib.Text.{◌==◌ as str_eq}
use mathlib.Core.Option.{some-injective}
use dast_lang.Base.{
  ℕ, ◌+◌, ◌≤◌, ◌||◌, Option, some, List, [], ◌∷◌, ◌++◌, arith, Bool-cases, Option-cases, inl, inr,
  option_holds, String, ◌≡◌,
}
use dast_lang.Ir.Inline.{
  InlineCandidate, fill_temp_map, inline_call, inline_instrs, inline_blocks, inline_calls,
  inline_target, lookup_name, first_instrs, store_params, Counters, inline_prefix, ret_temp,
  wants_value,
}
use dast_lang.Ir.Syntax.{Operand, Instr, call, Block, Function, Var}
use dast_lang.Ir.Bounds.Below.{
  OperandsBelow, DstBelow, InstrBelow, AllBelow, BlocksBelow, instr_raised, operands_raised,
  dst_raised, all_raised, term_raised, AllBelow-append,
}
use dast_lang.Ir.Bounds.Remap.{AllRemapped, instrs-Remapped, fill_temp_map-Fills}

-- The body of a candidate has its temps below its own count, and only instructions that are remapped.
pub record CandidateBelow (cand : InlineCandidate) : Type 0 where
  pub below : AllBelow cand.fn.temp_count (first_instrs cand.fn.blocks)
  pub remapped : AllRemapped (first_instrs cand.fn.blocks)

abbrev pub CandidatesBelow : List (String × InlineCandidate) → Type 0
CandidatesBelow [] = Unit
CandidatesBelow ((name, cand) ∷ inline) = CandidateBelow cand × CandidatesBelow inline

-- The counter of temps has not gone back, and the instructions are below it.
pub record Inlines (next : ℕ) (out : List Instr) (next' : ℕ) : Type 0 where
  pub grows : next ≤ next'
  pub below : AllBelow next' out

lookup_name-Below :
    (key : String) (inline : List (String × InlineCandidate)) (cand : InlineCandidate)
    → CandidatesBelow inline
    → lookup_name key inline ≡ some cand
    → CandidateBelow cand
unfolding lookup_name
lookup_name-Below key [] cand all e = absurd (ground arith)
lookup_name-Below key ((name, c) ∷ inline) cand all e = elim (Bool-cases (str_eq name key)) [
  | inl same ↦
      let at : some c ≡ some cand = ground arith in
      subst CandidateBelow (some-injective _ _ at) all.0
  | inr other ↦ lookup_name-Below key inline cand all.1 (ground arith)
]

inline_target-Below :
    (inline : List (String × InlineCandidate)) (caller : String) (dst : Option ℕ) (callee : String)
    (cand : InlineCandidate)
    → CandidatesBelow inline
    → inline_target inline caller dst callee ≡ some cand
    → CandidateBelow cand
unfolding inline_target
inline_target-Below inline caller dst callee cand all e =
    elim (Option-cases (lookup_name callee inline)) [
      | inl missing ↦ absurd (ground arith)
      | inr (c, there) ↦ elim (Bool-cases (str_eq callee caller || wants_value dst c.ret_op)) [
        | inl skipped ↦ absurd (ground arith)
        | inr taken ↦
            let at : some c ≡ some cand = ground arith in
            subst CandidateBelow (some-injective _ _ at)
              (lookup_name-Below callee inline c all there)
      ]
    ]

store_params-Below :
    (n : ℕ) (prefix : String) (params : List Var) (args : List Operand)
    → OperandsBelow n args
    → AllBelow n (store_params prefix params args)
store_params-Below n prefix (param ∷ params) (arg ∷ args) h =
    ((h.0, tt), store_params-Below n prefix params args h.1)
store_params-Below n prefix [] args h = tt
store_params-Below n prefix (param ∷ params) [] h = tt

inline_call-Inlines :
    (dst : Option ℕ) (args : List Operand) (cand : InlineCandidate) (next id : ℕ)
    → DstBelow next dst
    → OperandsBelow next args
    → CandidateBelow cand
    → Inlines next (inline_call dst args cand next id).0 (inline_call dst args cand next id).1
unfolding inline_call
inline_call-Inlines dst args cand next id dst_below args_below good =
    let filled = fill_temp_map-Fills (ret_temp cand.ret_op) dst cand.fn.temp_count 0 next in
    let (m, n) = fill_temp_map (ret_temp cand.ret_op) dst cand.fn.temp_count 0 next in
    record {
      grows = filled.grows;
      below =
          AllBelow-append _ (store_params (inline_prefix id) cand.fn.params args) _
            (store_params-Below _ (inline_prefix id) cand.fn.params args
              (operands_raised next _ filled.grows args args_below))
            (instrs-Remapped _ (inline_prefix id) cand.fn.temp_count _
              (λ t under.
                filled.into t (dst_raised next _ filled.grows dst dst_below) (omega arith)
                  (omega (arith, under)))
              (first_instrs cand.fn.blocks) good.remapped good.below);
    }

module _ (inline : List (String × InlineCandidate)) (caller : String) (all : CandidatesBelow inline)
    (count : ℕ) where
  kept_first :
      (inst : Instr) (next : ℕ) (out : List Instr) (next' : ℕ)
      → count ≤ next
      → InstrBelow count inst
      → Inlines next out next'
      → Inlines next (inst ∷ out) next'
  kept_first inst next out next' le h later = record {
    grows = later.grows;
    below = (instr_raised count next' (omega (arith, le, later.grows)) inst h, later.below);
  }

  inlined_first :
      (xs : List Instr) (next middle : ℕ) (out : List Instr) (next' : ℕ)
      → Inlines next xs middle
      → Inlines middle out next'
      → Inlines next (xs ++ out) next'
  inlined_first xs next middle out next' first later = record {
    grows = omega (arith, first.grows, later.grows);
    below =
        AllBelow-append next' xs out (all_raised middle next' later.grows xs first.below)
          later.below;
  }

  inline_instrs-Inlines :
      (instrs : List Instr) (c : Counters)
      → count ≤ c.0
      → AllBelow count instrs
      → Inlines c.0
          (inline_instrs inline caller instrs c).0
          (inline_instrs inline caller instrs c).1.0
  unfolding inline_instrs
  inline_instrs-Inlines [] c le h = record { grows = omega arith; below = tt }
  inline_instrs-Inlines (call dst callee args ∷ instrs) (next, id) le h =
      option_holds (λ (z : List Instr × Counters). Inlines next z.0 z.1.0)
        (inline_target inline caller dst callee) _ _
        (λ _.
          kept_first (call dst callee args) next _ _ le h.0
            (inline_instrs-Inlines instrs (next, id) le h.1))
        (λ cand there.
          let first =
            inline_call-Inlines dst args cand next id (dst_raised count next le dst h.0.0)
              (operands_raised count next le args h.0.1)
              (inline_target-Below inline caller dst callee cand all there) in
          inlined_first _ next _ _ _ first (
            inline_instrs-Inlines instrs ((inline_call dst args cand next id).1, id + 1)
              (omega (arith, le, first.grows)) h.1))
  inline_instrs-Inlines (inst ∷ instrs) (next, id) le h =
      kept_first inst next _ _ le h.0 (inline_instrs-Inlines instrs (next, id) le h.1)

  -- Every block is below the counter that the last one leaves.
  inline_blocks-Below :
      (blocks : List Block) (c : Counters)
      → count ≤ c.0
      → BlocksBelow count blocks
      → (c.0 ≤ (inline_blocks inline caller blocks c).1.0)
        × BlocksBelow
            (inline_blocks inline caller blocks c).1.0
            (inline_blocks inline caller blocks c).0
  inline_blocks-Below [] c le h = (omega arith, tt)
  inline_blocks-Below (blk ∷ blocks) c le h =
      let first = inline_instrs-Inlines blk.instr c le h.0 in
      let middle = (inline_instrs inline caller blk.instr c).1 in
      let from : count ≤ middle.0 = omega (arith, le, first.grows) in
      let (grows, later) = inline_blocks-Below blocks middle from h.2 in
      (
        omega (arith, first.grows, grows),
        (
          all_raised _ _ grows _ first.below,
          term_raised count _ (omega (arith, from, grows)) blk.term h.1,
          later,
        ),
      )

-- Inlining takes no temp away, and after it all temps of the function are below its new count,
-- provided that they were below the old one, that the temps of every candidate are below the count of
-- the candidate, and that no candidate calls a closure or takes the address of a field or an element.
pub inline_calls-Below :
    (inline : List (String × InlineCandidate)) (fn : Function)
    → CandidatesBelow inline
    → BlocksBelow fn.temp_count fn.blocks
    → (fn.temp_count ≤ (inline_calls inline fn).temp_count)
      × BlocksBelow (inline_calls inline fn).temp_count (inline_calls inline fn).blocks
unfolding inline_calls
inline_calls-Below inline fn all below =
    inline_blocks-Below inline fn.name all fn.temp_count fn.blocks (fn.temp_count, 0) (omega arith)
      below
