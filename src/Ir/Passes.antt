-- ===== src/Ir/Passes.antt =====
-- The passes of `Optimize` (compiler/stage0/internal/ir/opt.go) on a whole program: that they end, and
-- what the inliner does where there is nothing to inline.
use dast_lang.Base.{String, some, List, [], ◌∷◌, ◌≡◌, refl, ap, ◌∙◌}
use dast_lang.Ir.BlockPass.{optimize, optimize_all, optimize_function, optimize_blocks}
use dast_lang.Ir.Inline.{
  InlineCandidate, inline_calls, inline_instrs, inline_blocks, Counters, collect_inline_candidates,
}
use dast_lang.Ir.Prune.{prune_blocks, prune_unreachable}
use dast_lang.Ir.Pruned.{prune_blocks-IsPruned}
use dast_lang.Ir.Syntax.{Block, Function, Instr, call}

prune_blocks_total : (blocks : List Block) → (kept : List Block) × (prune_blocks blocks ≡ some kept)
unfolding prune_blocks
prune_blocks_total [] = ([], refl)
prune_blocks_total (entry ∷ blocks) =
    let (kept, e, pruned) = prune_blocks-IsPruned entry blocks in (kept, e)

prune_unreachable_total : (fn : Function) → (fn' : Function) × (prune_unreachable fn ≡ some fn')
unfolding prune_unreachable
prune_unreachable_total fn =
    let (kept, e) = prune_blocks_total fn.blocks in
    (record fn { blocks = kept }, rw (e, prune_unreachable) refl)

optimize_function_total :
    (inline : List (String × InlineCandidate)) (fn : Function)
    → (fn' : Function) × (optimize_function inline fn ≡ some fn')
unfolding optimize_function
optimize_function_total inline fn =
    let inlined = inline_calls inline fn in
    prune_unreachable_total (record inlined { blocks = optimize_blocks inlined.blocks })

optimize_all_total :
    (inline : List (String × InlineCandidate)) (fns : List (String × Function))
    → (fns' : List (String × Function)) × (optimize_all inline fns ≡ some fns')
optimize_all_total inline [] = ([], refl)
optimize_all_total inline ((name, fn) ∷ fns) =
    let (fn', e) = optimize_function_total inline fn in
    let (fns', es) = optimize_all_total inline fns in
    ((name, fn') ∷ fns', rw (e, es, optimize_all) refl)

-- Optimising ends, for every program.
pub optimize_total :
    (fns : List (String × Function))
    → (fns' : List (String × Function)) × (optimize fns ≡ some fns')
unfolding optimize
optimize_total fns = optimize_all_total (collect_inline_candidates fns) fns

inline_instrs-nil :
    (caller : String) (instrs : List Instr) (c : Counters)
    → inline_instrs [] caller instrs c ≡ (instrs, c)
unfolding inline_instrs
inline_instrs-nil caller [] c = refl
inline_instrs-nil caller (call dst callee args ∷ instrs) (n, i) =
    ap (λ r. (call dst callee args ∷ r.0, r.1)) (inline_instrs-nil caller instrs (n, i))
inline_instrs-nil caller (inst ∷ instrs) c =
    ap (λ r. (inst ∷ r.0, r.1)) (inline_instrs-nil caller instrs c)

inline_blocks-nil :
    (caller : String) (blocks : List Block) (c : Counters)
    → inline_blocks [] caller blocks c ≡ (blocks, c)
inline_blocks-nil caller [] c = refl
inline_blocks-nil caller (blk ∷ blocks) c =
    ap
      (λ r. (
        record blk { instr = r.0 } ∷ (inline_blocks [] caller blocks r.1).0,
        (inline_blocks [] caller blocks r.1).1,
      ))
      (inline_instrs-nil caller blk.instr c)
    ∙ ap (λ r. (blk ∷ r.0, r.1)) (inline_blocks-nil caller blocks c)

pub inline_calls-nil : (fn : Function) → inline_calls [] fn ≡ fn
unfolding inline_calls
inline_calls-nil fn =
    ap (λ r. record fn { blocks = r.0; temp_count = r.1.0 })
      (inline_blocks-nil fn.name fn.blocks (fn.temp_count, 0))
