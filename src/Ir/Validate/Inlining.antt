-- ===== src/Ir/Validate/Inlining.antt =====
-- Inlining (compiler/stage0/internal/ir/opt.go) in a program of valid functions
-- (compiler/stage0/internal/ir/ir.go).
use dast_lang.Base.{
  if◌then◌else◌, ℕ, ◌≤◌, String, true, none, some, List, [], ◌∷◌, ◌≡◌, ap, arith, Bool-cases, inl,
  inr, option_holds,
}
use mathlib.Core.Path.{subst}
use mathlib.Core.Option.{some-injective}
use dast_lang.Ir.Bounds.Below.{AllBelow, BlocksBelow}
use dast_lang.Ir.Bounds.Remap.{AllRemapped}
use dast_lang.Ir.Bounds.Inlined.{CandidateBelow, CandidatesBelow, inline_calls-Below}
use dast_lang.Ir.Inline.{
  InlineCandidate, candidate_of, contains_call, collect_inline_candidates, inline_calls,
  first_instrs,
}
use dast_lang.Ir.Syntax.{Block, Function, Term, jump, branch, return, no_term}
use dast_lang.Ir.Validate.{validate_function}
use dast_lang.Ir.Validate.Laws.{validate_function-valid}

-- All functions are valid, and the first blocks call no closure and take no address.
abbrev pub ValidFunctions : List (String × Function) → Type 0
ValidFunctions [] = Unit
ValidFunctions ((name, fn) ∷ fns) =
    (validate_function fn ≡ true) × AllRemapped (first_instrs fn.blocks) × ValidFunctions fns

first_instrs-Below :
    (n : ℕ) (blocks : List Block) → BlocksBelow n blocks → AllBelow n (first_instrs blocks)
first_instrs-Below n [] h = tt
first_instrs-Below n (blk ∷ blocks) h = h.0

candidate_fn :
    (fn : Function) (blocks : List Block) (cand : InlineCandidate)
    → candidate_of fn blocks ≡ some cand
    → fn ≡ cand.fn
unfolding contains_call
candidate_fn fn [] cand e = absurd (ground arith)
candidate_fn fn (blk ∷ other ∷ blocks) cand e = absurd (ground arith)
candidate_fn fn (blk ∷ []) cand e = from_term blk.term e
  where
    from_term :
        (term : Term)
        → elim term [
          | return value ↦
              if contains_call blk.instr then none else some (record { fn = fn; ret_op = value })
          | _ ↦ none
        ]
          ≡ some cand
        → fn ≡ cand.fn
    from_term (return value) e = elim (Bool-cases (contains_call blk.instr)) [
      | inl calls ↦ absurd (ground arith)
      | inr none_there ↦
          let at : some (record { fn = fn; ret_op = value }) ≡ some cand = ground arith in
          ap (λ c. c.fn) (some-injective _ _ at)
    ]
    from_term (jump target) e = absurd (ground arith)
    from_term (branch cond a b) e = absurd (ground arith)
    from_term no_term e = absurd (ground arith)

candidate_of-Below :
    (fn : Function) (cand : InlineCandidate)
    → validate_function fn ≡ true
    → AllRemapped (first_instrs fn.blocks)
    → candidate_of fn fn.blocks ≡ some cand
    → CandidateBelow cand
candidate_of-Below fn cand valid remapped e =
    let same = candidate_fn fn fn.blocks cand e in
    record {
      below =
          subst (λ g. AllBelow g.temp_count (first_instrs g.blocks)) same
            (first_instrs-Below fn.temp_count fn.blocks (validate_function-valid fn valid).0);
      remapped = subst (λ g. AllRemapped (first_instrs g.blocks)) same remapped;
    }

collect_inline_candidates-Below :
    (fns : List (String × Function))
    → ValidFunctions fns
    → CandidatesBelow (collect_inline_candidates fns)
unfolding collect_inline_candidates
collect_inline_candidates-Below [] valid = tt
collect_inline_candidates-Below ((name, fn) ∷ fns) valid =
    option_holds CandidatesBelow (candidate_of fn fn.blocks) _ _
      (λ _. collect_inline_candidates-Below fns valid.2)
      (λ cand e.
        (candidate_of-Below fn cand valid.0 valid.1 e, collect_inline_candidates-Below fns valid.2))

-- In a program of valid functions, inlining into a valid function takes no temp away and leaves all
-- temps below the new count, provided that no function calls a closure or takes the address of a field
-- or an element in its first block.
pub inline_calls-valid :
    (fns : List (String × Function)) (fn : Function)
    → ValidFunctions fns
    → validate_function fn ≡ true
    → (fn.temp_count ≤ (inline_calls (collect_inline_candidates fns) fn).temp_count)
      × BlocksBelow
          (inline_calls (collect_inline_candidates fns) fn).temp_count
          (inline_calls (collect_inline_candidates fns) fn).blocks
inline_calls-valid fns fn valid fn_valid =
    inline_calls-Below (collect_inline_candidates fns) fn
      (collect_inline_candidates-Below fns valid) (validate_function-valid fn fn_valid).0
