-- ===== src/Interp/Hygiene/Patterns.antt =====
-- `renamePattern` and `renamePatternWithMap` of compiler/stage0/internal/interp/quote.go.

use dast_lang.Base.{ℕ, ◌+◌, String, Bool, true, false, Option, none, some, [], ◌∷◌, if◌then◌else◌}
use dast_lang.Ast.Tree.{
  Pattern, no_pattern, binding, variant, struct_pattern, tuple_pattern, array_pattern, or_pattern,
  Patterns, no_patterns, cons_pattern, FieldPatterns, no_field_patterns, cons_field_pattern,
}
use dast_lang.Interp.Hygiene.Renamer.{Names, Scope, lookup_scope, unique, is_fixed}

-- The counter and the map `binds`.
pub record Binds : Type 0 where
  pub next_id : ℕ
  pub binds : Scope

module _ (names : Names) where
  -- A name that is bound takes its new name; a new one is made for the others where `generate` says so.
  unfoldable pub rename_bound : Bool → String → Binds → Option String → Binds × String
  unfolding unique
  rename_bound generate name b (some renamed) = (b, renamed)
  rename_bound false name b none = (b, name)
  rename_bound true name b none =
      let renamed = unique names name b.next_id in
      (record { next_id = b.next_id + 1; binds = (name, renamed) ∷ b.binds }, renamed)

  unfoldable pub rename_name : Bool → String → Binds → Binds × String
  unfolding rename_bound
  rename_name generate name b =
      if is_fixed names name
      then (b, name)
      else rename_bound generate name b (lookup_scope name b.binds)

  unfoldable mutual
    unfolding rename_name

    pub rename_pattern_with_map : Bool → Pattern → Binds → Binds × Pattern
    rename_pattern_with_map generate (binding name) b =
        let (b', name') = rename_name generate name b in (b', binding name')
    rename_pattern_with_map generate (variant enum_name variant_name bound no_pattern) b =
        let (b', bound') = rename_name generate bound b in
        (b', variant enum_name variant_name bound' no_pattern)
    rename_pattern_with_map generate (variant enum_name variant_name bound payload) b =
        let (b', payload') = rename_pattern_with_map generate payload b in
        (b', variant enum_name variant_name bound payload')
    rename_pattern_with_map generate (struct_pattern name fields) b =
        let (b', fields') = rename_fields generate fields b in (b', struct_pattern name fields')
    rename_pattern_with_map generate (tuple_pattern elems) b =
        let (b', elems') = rename_patterns generate generate elems b in (b', tuple_pattern elems')
    rename_pattern_with_map generate (array_pattern elems) b =
        let (b', elems') = rename_patterns generate generate elems b in (b', array_pattern elems')
    rename_pattern_with_map generate (or_pattern alts) b =
        let (b', alts') = rename_patterns generate false alts b in (b', or_pattern alts')
    rename_pattern_with_map generate p b = (b, p)

    -- The first pattern with one value of `generate`, the later ones with another.
    pub rename_patterns : Bool → Bool → Patterns → Binds → Binds × Patterns
    rename_patterns first later no_patterns b = (b, no_patterns)
    rename_patterns first later (cons_pattern p ps) b =
        let (b', p') = rename_pattern_with_map first p b in
        let (b'', ps') = rename_patterns later later ps b' in (b'', cons_pattern p' ps')

    pub rename_fields : Bool → FieldPatterns → Binds → Binds × FieldPatterns
    rename_fields generate no_field_patterns b = (b, no_field_patterns)
    rename_fields generate (cons_field_pattern name bound no_pattern fields) b =
        let (b', bound') = rename_name generate bound b in
        let (b'', fields') = rename_fields generate fields b' in
        (b'', cons_field_pattern name bound' no_pattern fields')
    rename_fields generate (cons_field_pattern name bound p fields) b =
        let (b', p') = rename_pattern_with_map generate p b in
        let (b'', fields') = rename_fields generate fields b' in
        (b'', cons_field_pattern name bound p' fields')

  -- `renamePattern`, from the value of the counter.
  abbrev pub rename_pattern : Pattern → ℕ → Binds × Pattern
  unfolding rename_pattern_with_map
  rename_pattern p id = rename_pattern_with_map true p (record { next_id = id; binds = [] })
