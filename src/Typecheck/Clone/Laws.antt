-- ===== src/Typecheck/Clone/Laws.antt =====
-- `cloneFunction` of compiler/stage0/internal/typecheck/clone.go.
use dast_lang.Typecheck.Clone.Same.{clone_block-same, clone_elem-same, clone_type-same, no_subst}
use dast_lang.Typecheck.Clone.Unresolved.{UnresolvedBlock}
use dast_lang.Base.{String, Bool, [], ◌∷◌, List, refl, ◌≡◌}
use dast_lang.Ast.Items.{Function, Param}
use dast_lang.Typecheck.Clone.Types.{Subst, clone_type}
use dast_lang.Typecheck.Clone.Trees.{clone_function, clone_params}
use dast_lang.Typecheck.Clone.Avoids.{AvoidsTy, AvoidsElem, AvoidsBlock}
use dast_lang.Typecheck.Clone.Closures.{ClosuresAvoidBlock}
use dast_lang.Typecheck.Clone.TypesAvoid.{Apart, clone_type-AvoidsTy, clone_elem-AvoidsElem}
use dast_lang.Typecheck.Clone.TreesAvoid.{clone_block-AvoidsBlock}

abbrev pub AvoidsParams : (String → Bool) → List Param → Type 0
AvoidsParams names [] = Unit
AvoidsParams names (p ∷ ps) = AvoidsTy names p.type × AvoidsParams names ps

-- No type that is written in the function is one of the names, or holds one. The names of variables,
-- functions, structs, enums and variants are no types.
abbrev pub AvoidsFunction : (String → Bool) → Function → Type 0
AvoidsFunction names fn =
    AvoidsParams names fn.params × AvoidsElem names fn.return_type × AvoidsBlock names fn.body

clone_params-AvoidsParams :
    (subst : Subst) (names : String → Bool)
    → Apart subst names
    → (ps : List Param) → AvoidsParams names (clone_params subst ps)
unfolding clone_params clone_type
clone_params-AvoidsParams subst names apart [] = tt
clone_params-AvoidsParams subst names apart (p ∷ ps) =
    (clone_type-AvoidsTy subst names apart p.type, clone_params-AvoidsParams subst names apart ps)

-- No type that is written in a copy of a function, in its signature or in its body, is a type parameter
-- or holds one, provided that every type parameter is replaced, by a type that holds none, and that
-- none is written in a closure of the body. A type parameter that is written as a name, before a dot or
-- as the name of a struct, an enum or a function, is no such type: the copy keeps it.
pub clone_function-AvoidsFunction :
    (subst : Subst) (names : String → Bool) (fn : Function)
    → Apart subst names
    → ClosuresAvoidBlock names fn.body
    → AvoidsFunction names (clone_function subst fn)
unfolding clone_function
clone_function-AvoidsFunction subst names fn apart closures = (
  clone_params-AvoidsParams subst names apart fn.params,
  clone_elem-AvoidsElem subst names apart fn.return_type,
  clone_block-AvoidsBlock subst names apart fn.body closures,
)

clone_params-same : (ps : List Param) → clone_params no_subst ps ≡ ps
unfolding clone_params clone_type
clone_params-same [] = refl
clone_params-same (p ∷ ps) =
    λ i. record p { type = clone_type-same p.type i } ∷ clone_params-same ps i

-- Where nothing is to be replaced, the copy of a function is the function itself but for its type
-- parameters, provided that no method call in its body is resolved.
pub clone_function-same :
    (fn : Function)
    → UnresolvedBlock fn.body
    → clone_function no_subst fn ≡ record fn { type_params = [] }
unfolding clone_function
clone_function-same fn unresolved = λ i. record fn {
  type_params = [];
  params = clone_params-same fn.params i;
  return_type = clone_elem-same fn.return_type i;
  body = clone_block-same fn.body unresolved i;
}
