-- ===== src/Interp/Hygiene/Laws.antt =====
-- What `renameBlock` and `renameItem` of compiler/stage0/internal/interp/quote.go leave of the state of
-- `hygieneRenamer`.
use dast_lang.Base.{◌≡◌, ◌≤◌, List, [], ◌∷◌}
use dast_lang.Ast.Tree.{Block}
use dast_lang.Ast.Items.{Item, function_item, impl_decl, Function, Param}
use dast_lang.Interp.Hygiene.Renamer.{Names, Renamer, push}
use dast_lang.Interp.Hygiene.Trees.{
  rename_block, declare_params, rename_function, rename_functions, rename_item,
}
use dast_lang.Interp.Hygiene.Scopes.{
  Kept, Grown, Kept-refl, Kept-then, Kept-Grown, Grown-refl, Grown-then, popped,
  declare_renamed-Grown, rename_block-Kept,
}

module _ (names : Names) where
  declare_params-Grown : (ps : List Param) (r : Renamer) → Grown r (declare_params names ps r)
  unfolding declare_params
  declare_params-Grown [] r = Grown-refl r
  declare_params-Grown (p ∷ ps) r =
      Grown-then (declare_renamed-Grown names p.name p.name r) (declare_params-Grown ps _)

  rename_function-Kept : (fn : Function) (r : Renamer) → Kept r (rename_function names fn r).0
  unfolding rename_function
  rename_function-Kept fn r =
      let opened = declare_params-Grown fn.params (push r) in
      popped (
        Grown-then opened
          (Kept-Grown (rename_block-Kept names fn.body (declare_params names fn.params (push r)))))

  rename_functions-Kept :
      (fns : List Function) (r : Renamer) → Kept r (rename_functions names fns r).0
  unfolding rename_functions
  rename_functions-Kept [] r = Kept-refl r
  rename_functions-Kept (fn ∷ fns) r =
      Kept-then (rename_function-Kept fn r) (rename_functions-Kept fns _)

  rename_item-Kept : (item : Item) (r : Renamer) → Kept r (rename_item names item r).0
  unfolding rename_item
  rename_item-Kept (function_item fn) r = rename_function-Kept fn r
  rename_item-Kept (impl_decl name type_args type_params methods vis) r =
      rename_functions-Kept methods r
  rename_item-Kept _ r = Kept-refl r

-- Renaming a block, from every state, leaves the scopes as they were and never sets the counter back.
pub rename_block-scopes :
    (names : Names) (b : Block) (r : Renamer)
    → ((rename_block names b r).0.scopes ≡ r.scopes)
      × (r.next_id ≤ (rename_block names b r).0.next_id)
rename_block-scopes names b r =
    let kept = rename_block-Kept names b r in (kept.scopes, kept.next_id)

-- Renaming an item, from every state, leaves the scopes as they were and never sets the counter back.
pub rename_item-scopes :
    (names : Names) (item : Item) (r : Renamer)
    → ((rename_item names item r).0.scopes ≡ r.scopes)
      × (r.next_id ≤ (rename_item names item r).0.next_id)
rename_item-scopes names item r =
    let kept = rename_item-Kept names item r in (kept.scopes, kept.next_id)
