-- ===== src/Interp/Hygiene/Renamer.antt =====
-- The state of `hygieneRenamer` of compiler/stage0/internal/interp/quote.go and its scopes, the
-- innermost first. There is always a scope where a name is declared, as `newHygieneRenamer` makes one.
use text.Mathlib.Text.{◌==◌ as str_eq}
use Prim.Native.String.{◌++◌ as append}
use Prim.Native.Char.{code}
use dast_lang.Base.{ℕ, ◌+◌, String, Bool, ◌||◌, Option, none, some, List, [], ◌∷◌, if◌then◌else◌}
use dast_lang.Lexer.Chars.{within}

-- `%d` of package fmt, and `isPlaceholder`, which asks package strconv for the number in a name.
pub record Names : Type 0 where
  pub decimal : ℕ → String
  pub is_placeholder : String → Bool

abbrev pub Scope : Type 0
Scope = List (String × String)

-- `nextID` points to a counter that all quotations share.
pub record Renamer : Type 0 where
  pub next_id : ℕ
  pub scopes : List Scope

abbrev pub push : Renamer → Renamer
push r = record r { scopes = [] ∷ r.scopes }

abbrev pub rest : List Scope → List Scope
rest [] = []
rest (scope ∷ scopes) = scopes

abbrev pub pop : Renamer → Renamer
pop r = record r { scopes = rest r.scopes }

abbrev pub bind_in : String → String → List Scope → List Scope
bind_in name renamed [] = []
bind_in name renamed (scope ∷ scopes) = ((name, renamed) ∷ scope) ∷ scopes

abbrev pub lookup_scope : String → Scope → Option String
lookup_scope name [] = none
lookup_scope name ((x, renamed) ∷ scope) =
    if str_eq x name then some renamed else lookup_scope name scope

unfoldable pub lookup : String → List Scope → Option String
lookup name [] = none
lookup name (scope ∷ scopes) = elim (lookup_scope name scope) [
  | some renamed ↦ some renamed
  | none ↦ lookup name scopes
]

-- `sanitizeIdent` of eval.go: letters and digits of ASCII stay, all else becomes `_`.
abbrev pub sanitize_ident : String → String
sanitize_ident String.[] = String.[]
sanitize_ident (String.◌∷◌ c s) =
    if within b'a' b'z' (code c) || within b'A' b'Z' (code c) || within b'0' b'9' (code c)
    then String.◌∷◌ c (sanitize_ident s)
    else append "_" (sanitize_ident s)

module _ (names : Names) where
  -- `unique` with the number that it takes.
  unfoldable pub unique : String → ℕ → String
  unique base id =
      let prefix = sanitize_ident base in
      append "__dast_hyg_"
        (append (if str_eq prefix "" then "tmp" else prefix) (append "_" (names.decimal id)))

  -- `name == "" || isPlaceholder(name)`.
  abbrev pub is_fixed : String → Bool
  is_fixed name = str_eq name "" || names.is_placeholder name

  unfoldable pub declare : String → Renamer → Renamer × String
  unfolding unique
  declare name r =
      let renamed = unique name r.next_id in
      if is_fixed name
      then (r, name)
      else (record { next_id = r.next_id + 1; scopes = bind_in name renamed r.scopes }, renamed)

  unfoldable pub declare_renamed : String → String → Renamer → Renamer
  declare_renamed name renamed r =
      if is_fixed name then r else record r { scopes = bind_in name renamed r.scopes }

  unfoldable pub declare_all : Scope → Renamer → Renamer
  unfolding declare_renamed
  declare_all [] r = r
  declare_all ((name, renamed) ∷ binds) r = declare_all binds (declare_renamed name renamed r)

  -- The name of an identifier.
  abbrev pub renamed_ident : String → Option String → String
  renamed_ident name none = name
  renamed_ident name (some renamed) = if names.is_placeholder name then name else renamed
