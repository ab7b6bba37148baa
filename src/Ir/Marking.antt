-- ===== src/Ir/Marking.antt =====
-- The invariant of the loop of `pruneUnreachable` of compiler/stage0/internal/ir/opt.go.
use dast_lang.Base.{zero, Bool-cases, suc, ℕ, ◌≡◌, ◌⊎◌, inl, inr, String, some, List, [], ◌∷◌}
use dast_lang.Ir.Prune.{mark_reachable, find_block, mem_label, block_targets, push_all}
use dast_lang.Ir.Syntax.{Block}
use mathlib.Core.Path.{subst}
use mathlib.Core.Option.{some-injective}
use dast_lang.Ir.Reachable.{
  Has, Reach, step, Has-push_all, push_all-Has_left, push_all-Has_right, Has-cons, cons-Has_self,
  cons-Has,
}

-- What the loop knows of its two lists, for the entry label `entry`.
pub record MarkInv (blocks : List Block) (entry : String) (work reachable : List String)
    : Type 0 where
  pub sound : (l : String) → Has work l ⊎ Has reachable l → Reach blocks entry l
  pub closed :
      (from to : String)
      → Has reachable from
      → Has (block_targets (find_block from blocks)) to
      → Has reachable to ⊎ Has work to
  pub started : Has reachable entry ⊎ Has work entry

mark_skip-MarkInv :
    (blocks : List Block) (entry label : String) (work reachable : List String)
    → Has reachable label
    → MarkInv blocks entry (label ∷ work) reachable
    → MarkInv blocks entry work reachable
mark_skip-MarkInv blocks entry label work reachable m inv = record {
  sound = λ l s. inv.sound l (weaken l s);
  closed = λ from to h k. settle to (inv.closed from to h k);
  started = settle entry inv.started;
}
  where
    weaken : (l : String) → Has work l ⊎ Has reachable l → Has (label ∷ work) l ⊎ Has reachable l
    weaken l (inl w) = inl (cons-Has l label work w)
    weaken l (inr r) = inr r

    settle_cons : (l : String) → (label ≡ l) ⊎ Has work l → Has reachable l ⊎ Has work l
    settle_cons l (inl e) = inl (rw (← e) m)
    settle_cons l (inr w) = inr w

    settle : (l : String) → Has reachable l ⊎ Has (label ∷ work) l → Has reachable l ⊎ Has work l
    settle l (inl r) = inl r
    settle l (inr w) = settle_cons l (Has-cons l label work w)

mark_visit-MarkInv :
    (blocks : List Block) (entry label : String) (work reachable : List String)
    → MarkInv blocks entry (label ∷ work) reachable
    → MarkInv blocks entry
        (push_all (block_targets (find_block label blocks)) work)
        (label ∷ reachable)
mark_visit-MarkInv blocks entry label work reachable inv = record {
  sound = λ l s. reached l s;
  closed = λ from to h k. closes from to (Has-cons from label reachable h) k;
  started = settle entry inv.started;
}
  where
    new : List String
    new = block_targets (find_block label blocks)

    self : Reach blocks entry label
    self = inv.sound label (inl (cons-Has_self label work))

    pushed : (l : String) → Has new l ⊎ Has work l → Reach blocks entry l
    pushed l (inl n) = step self n
    pushed l (inr w) = inv.sound l (inl (cons-Has l label work w))

    marked : (l : String) → (label ≡ l) ⊎ Has reachable l → Reach blocks entry l
    marked l (inl e) = rw (← e) self
    marked l (inr r) = inv.sound l (inr r)

    reached :
        (l : String) → Has (push_all new work) l ⊎ Has (label ∷ reachable) l → Reach blocks entry l
    reached l (inl w) = pushed l (Has-push_all l new work w)
    reached l (inr r) = marked l (Has-cons l label reachable r)

    settle_cons :
        (l : String)
        → (label ≡ l) ⊎ Has work l
        → Has (label ∷ reachable) l ⊎ Has (push_all new work) l
    settle_cons l (inl e) = inl (rw (← e) (cons-Has_self label reachable))
    settle_cons l (inr w) = inr (push_all-Has_right l new work w)

    settle :
        (l : String)
        → Has reachable l ⊎ Has (label ∷ work) l
        → Has (label ∷ reachable) l ⊎ Has (push_all new work) l
    settle l (inl r) = inl (cons-Has l label reachable r)
    settle l (inr w) = settle_cons l (Has-cons l label work w)

    closes :
        (from to : String)
        → (label ≡ from) ⊎ Has reachable from
        → Has (block_targets (find_block from blocks)) to
        → Has (label ∷ reachable) to ⊎ Has (push_all new work) to
    closes from to (inl e) k = inr (push_all-Has_left to new work (rw e k))
    closes from to (inr r) k = settle to (inv.closed from to r k)

pub mark_reachable-MarkInv :
    (blocks : List Block) (entry : String) (fuel : ℕ) (work reachable : List String)
    {result : List String}
    → MarkInv blocks entry work reachable
    → mark_reachable blocks fuel work reachable ≡ some result
    → MarkInv blocks entry [] result
unfolding mark_reachable
mark_reachable-MarkInv blocks entry zero work reachable inv e = cc
mark_reachable-MarkInv blocks entry (suc fuel) [] reachable {result} inv e =
    subst (MarkInv blocks entry []) (some-injective _ _ e) inv
mark_reachable-MarkInv blocks entry (suc fuel) (label ∷ work) reachable inv e =
    elim (Bool-cases (mem_label label reachable)) [
      | inl t ↦
          mark_reachable-MarkInv blocks entry fuel work reachable
            (mark_skip-MarkInv blocks entry label work reachable t inv)
            (rw (t, mark_reachable) at e)
      | inr f ↦
          mark_reachable-MarkInv blocks entry fuel
            (push_all (block_targets (find_block label blocks)) work) (label ∷ reachable)
            (mark_visit-MarkInv blocks entry label work reachable inv) (rw (f, mark_reachable) at e)
    ]
