-- ===== src/Ast/Examples.antt =====
-- Printed literals, read back.
use dast_lang.Ast.RoundTrip.{
  char_value, reread_all, read_string-string_literal, read_char-char_literal,
}
use dast_lang.Ast.Escape.{is_valid_rune, string_literal, char_literal}
use dast_lang.Base.{◌≡◌, refl, some, [], ◌∷◌, ◌++◌, Runes, codes}
use dast_lang.Lexer.Moves.{walk}
use dast_lang.Lexer.Scan.{read_string, read_char}
use dast_lang.Lexer.State.{Lexer, new}

abbrev quoted : Runes
quoted = codes "a\"\\\n\tb"

abbrev at_string : Lexer
at_string = new "p.dast" (string_literal quoted ++ codes "; x")

abbrev at_char : Lexer
at_char = new "p.dast" (char_literal b'\r' ++ codes ")")

read_string-string_literal_example :
    read_string at_string ≡ (some (reread_all quoted), walk (string_literal quoted) at_string)
unfolding new
read_string-string_literal_example = read_string-string_literal quoted (codes "; x") at_string refl

read_char-char_literal_example :
    read_char at_char ≡ (some (b'\r' ∷ []), walk (char_literal b'\r') at_char)
unfolding new is_valid_rune
read_char-char_literal_example = read_char-char_literal b'\r' (codes ")") at_char refl

-- A carriage return comes back as the letter.
return_lost : reread_all (codes "a\rb") ≡ codes "arb"
return_lost = refl

-- The code of a surrogate comes back as U+FFFD.
surrogate_lost : char_value 0xd800 ≡ 0xfffd
unfolding is_valid_rune
surrogate_lost = refl
