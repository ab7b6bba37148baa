-- ===== src/Typecheck/Clone/TypesAvoid.antt =====
-- The names in a type that `cloneType` of compiler/stage0/internal/typecheck/clone.go has copied.
use dast_lang.Base.{
  When, Bool-cases, if◌then◌else◌, String, Bool, true, false, ◌≡◌, none, some, Option-cases, inl,
  inr, arith,
}
use dast_lang.Ast.Types.{Ty, ty, OptTy, no_type, some_type, Tys, no_types, cons_type}
use dast_lang.Typecheck.Types.{CheckedType}
use dast_lang.Typecheck.Clone.Types.{
  Subst, replacement, type_to_ast, clone_type, clone_elem, clone_types, with_ref,
}
use dast_lang.Typecheck.Clone.Avoids.{AvoidsTy, AvoidsElem, AvoidsTys}

-- Every one of the names is replaced, by a type that has none of them.
pub record Apart (subst : Subst) (names : String → Bool) : Type 0 where
  pub replaced :
      (n : String) → names n ≡ true → (rep : CheckedType) × (replacement subst n ≡ some rep)
  pub avoids :
      (n : String) (rep : CheckedType)
      → replacement subst n ≡ some rep
      → AvoidsTy names (type_to_ast rep)

with_ref-AvoidsTy :
    (names : String → Bool) (ref mut : Bool) (t : Ty)
    → AvoidsTy names t
    → AvoidsTy names (with_ref ref mut t)
with_ref-AvoidsTy names false mut t h = h
with_ref-AvoidsTy names true mut (ty n r m true t e es xs) h = h
with_ref-AvoidsTy names true mut (ty n r m false t e es xs) h = h

module _ (subst : Subst) (names : String → Bool) (apart : Apart subst names) where
  kept_name : (n : String) → replacement subst n ≡ none → names n ≡ false
  kept_name n e = elim (Bool-cases (names n)) [
    | inl bad ↦ let (rep, h) = apart.replaced n bad in absurd (ground arith)
    | inr good ↦ good
  ]

  tuple_avoids :
      (t : Bool) (es : Tys)
      → AvoidsTys names (clone_types subst es)
      → When t (AvoidsTys names (if t then clone_types subst es else es))
  tuple_avoids true es h = h
  tuple_avoids false es h = tt

  -- A name is replaced, or it is none of those that are to go.
  name_avoids :
      (n : String) (r m t : Bool) (e : OptTy) (es xs : Tys)
      → When t (AvoidsTys names es)
      → AvoidsTys names xs
      → AvoidsTy names (elim (replacement subst n) [
        | some rep ↦ with_ref r m (type_to_ast rep)
        | none ↦ ty n r m false t e es xs
      ])
  name_avoids n r m t e es xs tuple args = elim (Option-cases (replacement subst n)) [
    | inl kept ↦ rw kept (kept_name n kept, tuple, args)
    | inr (rep, found) ↦
        rw found (with_ref-AvoidsTy names r m (type_to_ast rep) (apart.avoids n rep found))
  ]

  mutual
    unfolding clone_type

    pub clone_type-AvoidsTy : (t : Ty) → AvoidsTy names (clone_type subst t)
    clone_type-AvoidsTy (ty n r m true t e es xs) = (
      clone_elem-AvoidsElem e,
      tuple_avoids t es (clone_types-AvoidsTys es),
      clone_types-AvoidsTys xs,
    )
    clone_type-AvoidsTy (ty n r m false t e es xs) =
        name_avoids n r m t e _ _ (tuple_avoids t es (clone_types-AvoidsTys es))
          (clone_types-AvoidsTys xs)

    pub clone_elem-AvoidsElem : (e : OptTy) → AvoidsElem names (clone_elem subst e)
    clone_elem-AvoidsElem no_type = tt
    clone_elem-AvoidsElem (some_type t) = clone_type-AvoidsTy t

    pub clone_types-AvoidsTys : (ts : Tys) → AvoidsTys names (clone_types subst ts)
    clone_types-AvoidsTys no_types = tt
    clone_types-AvoidsTys (cons_type t ts) = (clone_type-AvoidsTy t, clone_types-AvoidsTys ts)
