-- ===== src/Ast/RoundTrip.antt =====
-- The lexer reads back the literals that the formatter prints.
use dast_lang.Ast.Escape.{
  is_valid_rune, rune_text, to_rune, escape_string-escaped, escape_char, char_literal, escaped,
  string_literal, escape_string_rune,
}
use dast_lang.Base.{
  append_assoc, refl, ◌∙◌, append-nil, ap, sym, false, some, tail, All, ℕ, ◌≡◌, [], ◌∷◌, ◌++◌, ◌==◌,
  if◌then◌else◌, Runes, arith,
}
use dast_lang.Lexer.Moves.{rest-skip_rune, walk}
use dast_lang.Lexer.Scan.{
  unescape_in_char, close_char, char_body, read_char, read_string, string_body, unescape_in_string,
}
use dast_lang.Lexer.State.{past, skip_rune, Lexer}
use mathlib.Core.Path.{ap₂}

-- What reading makes of a printed rune: `readString` knows no escape for a carriage return.
abbrev pub reread : ℕ → ℕ
reread r = if r == b'\r' then b'r' else r

abbrev pub reread_all : Runes → Runes
reread_all [] = []
reread_all (r ∷ s) = reread r ∷ reread_all s

string_body-escape_rune :
    (r : ℕ) (t : Runes) (l : Lexer) (out : Runes)
    → l.rest ≡ escape_string_rune r ++ t
    → string_body (escape_string_rune r ++ t) l out
      ≡ string_body t (walk (escape_string_rune r) l) (out ++ reread r ∷ [])
unfolding string_body escape_string_rune unescape_in_string
string_body-escape_rune r t l out e = ground arith

rest-walk : (w t : Runes) (l : Lexer) → l.rest ≡ w ++ t → (walk w l).rest ≡ t
rest-walk [] t l e = e
rest-walk (c ∷ w) t l e = rest-walk w t (past c (tail l.rest) l) (ap tail e)

walk-append : (v w : Runes) (l : Lexer) → walk (v ++ w) l ≡ walk w (walk v l)
walk-append [] w l = refl
walk-append (c ∷ v) w l = walk-append v w (past c (tail l.rest) l)

skip_rune-walk : (r : ℕ) (cs : Runes) (l : Lexer) → l.rest ≡ r ∷ cs → skip_rune l ≡ walk (r ∷ []) l
skip_rune-walk r cs l e = ground arith

string_body-escaped :
    (s t : Runes) (l : Lexer) (out : Runes)
    → l.rest ≡ escaped s ++ b'"' ∷ t
    → string_body (escaped s ++ b'"' ∷ t) l out
      ≡ (some (out ++ reread_all s), walk (escaped s ++ b'"' ∷ []) l)
unfolding string_body
string_body-escaped [] t l out e =
    ap₂ (λ x m. (some x, m)) (sym (append-nil out)) (skip_rune-walk b'"' t l e)
string_body-escaped (r ∷ s) t l out e =
    let e' : l.rest ≡ escape_string_rune r ++ (escaped s ++ b'"' ∷ t) =
      e ∙ append_assoc (escape_string_rune r) (escaped s) (b'"' ∷ t) in
    let l' = walk (escape_string_rune r) l in
    ap (λ w. string_body w l out) (append_assoc (escape_string_rune r) (escaped s) (b'"' ∷ t))
    ∙ string_body-escape_rune r (escaped s ++ b'"' ∷ t) l out e'
    ∙ string_body-escaped s t l' (out ++ reread r ∷ [])
        (rest-walk (escape_string_rune r) (escaped s ++ b'"' ∷ t) l e')
    ∙ ap₂ (λ x m. (some x, m)) (append_assoc out (reread r ∷ []) (reread_all s))
        (sym (walk-append (escape_string_rune r) (escaped s ++ b'"' ∷ []) l)
          ∙ ap (λ w. walk w l) (sym (append_assoc (escape_string_rune r) (escaped s) (b'"' ∷ []))))

literal_text :
    (s t : Runes) (l : Lexer)
    → l.rest ≡ string_literal s ++ t
    → l.rest ≡ b'"' ∷ (escaped s ++ b'"' ∷ t)
literal_text s t l e =
    e
    ∙ ap (λ w. b'"' ∷ w)
        (ap (λ w. (w ++ b'"' ∷ []) ++ t) (escape_string-escaped s)
          ∙ append_assoc (escaped s) (b'"' ∷ []) t)

-- `readString` on a printed string literal, whatever follows: it stops behind the closing quote, and
-- its value is the string with each carriage return turned into the letter `r`.
pub read_string-string_literal :
    (s t : Runes) (l : Lexer)
    → l.rest ≡ string_literal s ++ t
    → read_string l ≡ (some (reread_all s), walk (string_literal s) l)
unfolding read_string
read_string-string_literal s t l e =
    let w : Runes = escaped s ++ b'"' ∷ t in
    let q = literal_text s t l e in
    let behind = rest-skip_rune b'"' w l q in
    ap (λ x. string_body x (skip_rune l) []) behind
    ∙ string_body-escaped s t (skip_rune l) [] behind
    ∙ ap₂ (λ v m. (some (reread_all s), walk (v ++ b'"' ∷ []) m)) (sym (escape_string-escaped s))
        (skip_rune-walk b'"' w l q)

abbrev pub NoReturn : Runes → Type 0
NoReturn = All (λ c. (c == b'\r') ≡ false)

reread_all-NoReturn : (s : Runes) → NoReturn s → reread_all s ≡ s
reread_all-NoReturn [] h = refl
reread_all-NoReturn (r ∷ s) h = ap₂ (λ x y. x ∷ y) (rw h.0) (reread_all-NoReturn s h.1)

-- A string with no carriage return is read back as it was.
pub read_string-string_literal_plain :
    (s t : Runes) (l : Lexer)
    → NoReturn s
    → l.rest ≡ string_literal s ++ t
    → read_string l ≡ (some s, walk (string_literal s) l)
read_string-string_literal_plain s t l n e =
    read_string-string_literal s t l e
    ∙ ap (λ x. (some x, walk (string_literal s) l)) (reread_all-NoReturn s n)

-- What a character literal is read back as.
abbrev pub char_value : ℕ → ℕ
char_value value = if is_valid_rune (to_rune value) then to_rune value else 0xfffd

char_body-escape_char :
    (r : ℕ) (t : Runes) (l : Lexer)
    → l.rest ≡ escape_char r ++ b'\'' ∷ t
    → char_body (escape_char r ++ b'\'' ∷ t) l
      ≡ (some ((if is_valid_rune r then r else 0xfffd) ∷ []), walk (escape_char r ++ b'\'' ∷ []) l)
unfolding char_body close_char escape_char unescape_in_char rune_text is_valid_rune
char_body-escape_char r t l e = ground arith

-- `readChar` on a printed character literal, whatever its value, of 64 bits, and whatever follows: it
-- stops behind the closing quote, and returns the low 32 bits of the value where they are a rune that
-- UTF-8 can encode, and U+FFFD where they are not.
pub read_char-char_literal :
    (value : ℕ) (t : Runes) (l : Lexer)
    → l.rest ≡ char_literal value ++ t
    → read_char l ≡ (some (char_value value ∷ []), walk (char_literal value) l)
unfolding read_char
read_char-char_literal value t l e =
    let r = to_rune value in
    let w : Runes = escape_char r ++ b'\'' ∷ t in
    let q : l.rest ≡ b'\'' ∷ w =
      e ∙ ap (λ x. b'\'' ∷ x) (append_assoc (escape_char r) (b'\'' ∷ []) t) in
    let behind = rest-skip_rune b'\'' w l q in
    ap (λ x. char_body x (skip_rune l)) behind
    ∙ char_body-escape_char r t (skip_rune l) behind
    ∙ ap (λ m. (some (char_value value ∷ []), walk (escape_char r ++ b'\'' ∷ []) m))
        (skip_rune-walk b'\'' w l q)
