-- ===== src/Interp/Hygiene/Counter.antt =====
-- The counter under `renamePatternWithMap` (compiler/stage0/internal/interp/quote.go).
use dast_lang.Base.{if_holds, String, Bool, true, false, ◌≤◌, arith, Option, none, some}
use dast_lang.Ast.Tree.{
  Pattern, no_pattern, binding, variant, struct_pattern, tuple_pattern, array_pattern, or_pattern,
  Patterns, no_patterns, cons_pattern, FieldPatterns, no_field_patterns, cons_field_pattern,
}
use dast_lang.Interp.Hygiene.Renamer.{Names, is_fixed, lookup_scope}
use dast_lang.Interp.Hygiene.Patterns.{
  Binds, rename_bound, rename_name, rename_pattern_with_map, rename_patterns, rename_fields,
}

pub record Counted (b b' : Binds) : Type 0 where
  pub next_id : b.next_id ≤ b'.next_id

Counted-refl : (b : Binds) → Counted b b
Counted-refl b = record { next_id = omega arith }

Counted-then : {b b' b'' : Binds} → Counted b b' → Counted b' b'' → Counted b b''
Counted-then c d = record { next_id = omega (arith, c.next_id, d.next_id) }

module _ (names : Names) where
  rename_bound-Counted :
      (generate : Bool) (name : String) (b : Binds) (o : Option String)
      → Counted b (rename_bound names generate name b o).0
  unfolding rename_bound
  rename_bound-Counted generate name b (some renamed) = Counted-refl b
  rename_bound-Counted false name b none = Counted-refl b
  rename_bound-Counted true name b none = record { next_id = omega arith }

  rename_name-Counted :
      (generate : Bool) (name : String) (b : Binds)
      → Counted b (rename_name names generate name b).0
  unfolding rename_name
  rename_name-Counted generate name b =
      if_holds (λ (z : Binds × String). Counted b z.0) (is_fixed names name) _ _ (Counted-refl b)
        (rename_bound-Counted generate name b (lookup_scope name b.binds))

  mutual
    unfolding rename_pattern_with_map

    pub rename_pattern_with_map-Counted :
        (generate : Bool) (p : Pattern) (b : Binds)
        → Counted b (rename_pattern_with_map names generate p b).0
    rename_pattern_with_map-Counted generate (binding name) b = rename_name-Counted generate name b
    rename_pattern_with_map-Counted generate (variant e v bound no_pattern) b =
        rename_name-Counted generate bound b
    rename_pattern_with_map-Counted generate (variant e v bound p) b =
        rename_pattern_with_map-Counted generate p b
    rename_pattern_with_map-Counted generate (struct_pattern name fields) b =
        rename_fields-Counted generate fields b
    rename_pattern_with_map-Counted generate (tuple_pattern elems) b =
        rename_patterns-Counted generate generate elems b
    rename_pattern_with_map-Counted generate (array_pattern elems) b =
        rename_patterns-Counted generate generate elems b
    rename_pattern_with_map-Counted generate (or_pattern alts) b =
        rename_patterns-Counted generate false alts b
    rename_pattern_with_map-Counted generate _ b = Counted-refl b

    rename_patterns-Counted :
        (first later : Bool) (ps : Patterns) (b : Binds)
        → Counted b (rename_patterns names first later ps b).0
    rename_patterns-Counted first later no_patterns b = Counted-refl b
    rename_patterns-Counted first later (cons_pattern p ps) b =
        Counted-then (rename_pattern_with_map-Counted first p b)
          (rename_patterns-Counted later later ps _)

    rename_fields-Counted :
        (generate : Bool) (fields : FieldPatterns) (b : Binds)
        → Counted b (rename_fields names generate fields b).0
    rename_fields-Counted generate no_field_patterns b = Counted-refl b
    rename_fields-Counted generate (cons_field_pattern name bound no_pattern fields) b =
        Counted-then (rename_name-Counted generate bound b)
          (rename_fields-Counted generate fields _)
    rename_fields-Counted generate (cons_field_pattern name bound p fields) b =
        Counted-then (rename_pattern_with_map-Counted generate p b)
          (rename_fields-Counted generate fields _)
