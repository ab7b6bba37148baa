-- ===== src/Lexer/Examples.antt =====
-- Runs of the lexer on small texts.
use dast_lang.Lexer.Grammar.{symbol_kinds, extensions_in}
use dast_lang.Lexer.Token.{kind_string, TokenKind, Token, lookup_keyword}
use dast_lang.Lexer.Spelled.{kind_string-next}
use dast_lang.Base.{◌≡◌, refl, false, List, [], ◌∷◌, Option, some, All, Runes, codes}
use dast_lang.Lexer.Blanks.{SkipsAll, skip_whitespace_and_comments-SkipsAll}
use dast_lang.Lexer.Chars.{Unicode, is_space, is_digit, is_ident_start, is_ident_part}
use dast_lang.Lexer.Next.{
  next, lex_tokens, debug_tokens, scan_rune, symbol_case, bracket_case, arithmetic_case,
  comparison_case, colon_case, dot_case, minus_case, bang_case, assign_case, lt_case, gt_case,
  amp_case, pipe_case,
}
use dast_lang.Lexer.State.{Lexer, new}
use dast_lang.Lexer.Stream.{Stream, Located, debug_tokens_total}
use dast_lang.Lexer.Scan.{
  skip_whitespace_and_comments, skip_rounds, skip_step, skip_while, skip_block, skip_line_comment,
  skip_block_comment, read_ident, read_number, read_fraction, read_string, string_body,
  unescape_in_string, read_char, char_body, close_char, unescape_in_char,
}

-- No letters, digits or spaces beyond Latin-1.
abbrev latin1 : Unicode
latin1 = record { letter = λ _. false; digit = λ _. false; white_space = λ _. false }

abbrev program : Runes
program = codes "fn f() -> 1.5 { // c\n  x..=\"a\\n\" /* d */ 'b' }"

abbrev kinds : List Token → List TokenKind
kinds [] = []
kinds (tok ∷ toks) = tok.kind ∷ kinds toks

abbrev kinds_of : Option (List Token) → List TokenKind
kinds_of Option.none = []
kinds_of (some toks) = kinds toks

lex_kinds : Runes → List TokenKind
unfolding debug_tokens new lex_tokens next skip_whitespace_and_comments skip_rounds skip_step
    skip_while skip_block skip_line_comment skip_block_comment is_space is_digit is_ident_start
    is_ident_part scan_rune symbol_case bracket_case arithmetic_case comparison_case colon_case
    dot_case minus_case bang_case assign_case lt_case gt_case amp_case pipe_case read_ident
    read_number read_fraction read_string string_body unescape_in_string read_char char_body
    close_char unescape_in_char lookup_keyword
lex_kinds input = kinds_of (debug_tokens latin1 "p.dast" input)

program_kinds :
    lex_kinds program
    ≡ TokenKind.token_fn ∷ TokenKind.token_ident ∷ TokenKind.token_lparen ∷ TokenKind.token_rparen
      ∷ TokenKind.token_arrow ∷ TokenKind.token_float ∷ TokenKind.token_lbrace
      ∷ TokenKind.token_ident ∷ TokenKind.token_dot_dot_eq ∷ TokenKind.token_string
      ∷ TokenKind.token_char ∷ TokenKind.token_rbrace ∷ TokenKind.token_eof ∷ []
unfolding lex_kinds
program_kinds = refl

-- A rune that starts no token ends the stream, whatever follows it.
stray_rune : lex_kinds (codes "fn # fn f") ≡ TokenKind.token_fn ∷ TokenKind.token_eof ∷ []
unfolding lex_kinds
stray_rune = refl

abbrev start : Lexer
start = new "p.dast" (codes " /* a */ x+1")

debug_tokens_total_example :
    (toks : List Token) × (debug_tokens latin1 "p.dast" program ≡ some toks)
    × Stream latin1 (new "p.dast" program) toks
    × All (Located latin1 program) toks
debug_tokens_total_example = debug_tokens_total latin1 "p.dast" program

skip_whitespace_and_comments-SkipsAll_example :
    SkipsAll latin1 start (skip_whitespace_and_comments latin1 start)
skip_whitespace_and_comments-SkipsAll_example = skip_whitespace_and_comments-SkipsAll latin1 start

kind_string-next_example :
    ((next latin1 (new "p.dast" (codes "..= x"))).0.kind ≡ TokenKind.token_dot_dot_eq)
    × ((next latin1 (new "p.dast" (codes "..= x"))).0.lexeme ≡ codes "..=")
unfolding kind_string
kind_string-next_example =
    kind_string-next latin1 "p.dast" TokenKind.token_dot_dot_eq (codes "x") refl

-- What may not stand behind `<`, since `<=` and `<<` are longer symbols.
extensions_of_less : extensions_in (codes "<") symbol_kinds ≡ codes "=<"
unfolding kind_string
extensions_of_less = refl
