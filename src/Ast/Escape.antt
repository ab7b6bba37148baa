-- ===== src/Ast/Escape.antt =====
-- `escapeString` and `escapeChar` of compiler/stage0/internal/ast/format.go.
use dast_lang.Base.{
  ◌&&◌, ◌||◌, ltb, ◌^◌, Bool, ◌%◌, append_assoc, ◌∙◌, append-nil, sym, ◌≡◌, ℕ, [], ◌∷◌, ◌++◌, ◌==◌,
  if◌then◌else◌, Runes,
}

-- What `escapeString` appends for one rune.
unfoldable pub escape_string_rune : ℕ → Runes
escape_string_rune r =
    if r == b'\\'
    then b'\\' ∷ b'\\' ∷ []
    else if r == b'"'
    then b'\\' ∷ b'"' ∷ []
    else if r == b'\n'
    then b'\\' ∷ b'n' ∷ []
    else if r == b'\t'
    then b'\\' ∷ b't' ∷ []
    else if r == b'\r'
    then b'\\' ∷ b'r' ∷ []
    else r ∷ []

escape_onto : Runes → Runes → Runes
escape_onto out [] = out
escape_onto out (r ∷ s) = escape_onto (out ++ escape_string_rune r) s

unfoldable pub escape_string : Runes → Runes
unfolding escape_onto escape_string_rune
escape_string s = escape_onto [] s

-- The runes that UTF-8 can encode.
unfoldable pub is_valid_rune : ℕ → Bool
is_valid_rune r = ltb r 0xd800 || (ltb 0xdfff r && ltb r 0x110000)

-- `string(r)`: what is no valid rune becomes U+FFFD.
unfoldable pub rune_text : ℕ → Runes
unfolding is_valid_rune
rune_text r = (if is_valid_rune r then r else 0xfffd) ∷ []

unfoldable pub escape_char : ℕ → Runes
unfolding rune_text
escape_char r =
    if r == b'\\'
    then b'\\' ∷ b'\\' ∷ []
    else if r == b'\''
    then b'\\' ∷ b'\'' ∷ []
    else if r == b'\n'
    then b'\\' ∷ b'n' ∷ []
    else if r == b'\t'
    then b'\\' ∷ b't' ∷ []
    else if r == b'\r'
    then b'\\' ∷ b'r' ∷ []
    else rune_text r

-- `rune(v)` of an `int64`, as words of 32 and 64 bits.
abbrev pub to_rune : ℕ → ℕ
to_rune value = value % 2 ^ 32

-- The output with no accumulator.
abbrev pub escaped : Runes → Runes
escaped [] = []
escaped (r ∷ s) = escape_string_rune r ++ escaped s

escape_onto-escaped : (out s : Runes) → escape_onto out s ≡ out ++ escaped s
unfolding escape_onto
escape_onto-escaped out [] = sym (append-nil out)
escape_onto-escaped out (r ∷ s) =
    escape_onto-escaped (out ++ escape_string_rune r) s
    ∙ append_assoc out (escape_string_rune r) (escaped s)

pub escape_string-escaped : (s : Runes) → escape_string s ≡ escaped s
unfolding escape_string
escape_string-escaped s = escape_onto-escaped [] s

-- The literals that `FormatExpr` prints.
abbrev pub string_literal : Runes → Runes
string_literal s = b'"' ∷ (escape_string s ++ b'"' ∷ [])

abbrev pub char_literal : ℕ → Runes
char_literal value = b'\'' ∷ (escape_char (to_rune value) ++ b'\'' ∷ [])
