-- ===== src/Lexer/Spelled.antt =====
-- Keywords and symbols: the spellings of compiler/stage0/internal/lexer/token.go read back by `Next` of
-- lexer.go.
use dast_lang.Base.{String, Bool, true, false, ◌≡◌, refl, ◌∷◌, ◌++◌, Runes, codes, runes_eq, arith}
use dast_lang.Lexer.Chars.{Unicode, is_ident_start, is_ident_part, is_space, is_digit}
use dast_lang.Lexer.Next.{
  next, scan_rune, symbol_case, bracket_case, colon_case, arithmetic_case, minus_case,
  comparison_case, assign_case, amp_case, bang_case, dot_case, gt_case, lt_case, pipe_case,
}
use dast_lang.Lexer.Scan.{
  skip_whitespace_and_comments, skip_rounds, skip_step, read_ident, skip_while,
}
use dast_lang.Lexer.State.{new}
use dast_lang.Lexer.Token.{
  TokenKind, kind_string, lookup_keyword, token_eof, token_ident, token_int, token_float,
  token_string, token_char, token_fn, token_struct, token_enum, token_impl, token_trait, token_self,
  token_self_type, token_const, token_type, token_pub, token_macro, token_quote, token_import,
  token_as, token_in, token_where, token_let, token_mut, token_if, token_else, token_while,
  token_loop, token_for, token_break, token_continue, token_match, token_return, token_true,
  token_false, token_lparen, token_rparen, token_lbrace, token_rbrace, token_lbracket,
  token_rbracket, token_comma, token_colon, token_semicolon, token_arrow, token_fat_arrow,
  token_dot, token_colon_colon, token_dot_dot, token_dot_dot_eq, token_at, token_dollar,
  token_assign, token_plus, token_minus, token_star, token_slash, token_percent, token_bang,
  token_amp, token_pipe, token_caret, token_shl, token_shr, token_eq_eq, token_not_eq, token_lt,
  token_lt_eq, token_gt, token_gt_eq, token_and_and, token_or_or,
}

-- The kinds whose tokens are spelled in one way alone.
abbrev pub has_spelling : TokenKind → Bool
has_spelling token_eof = false
has_spelling token_ident = false
has_spelling token_int = false
has_spelling token_float = false
has_spelling token_string = false
has_spelling token_char = false
has_spelling _ = true

-- The spelling of a keyword or a symbol with a space behind it is read as a token of that kind and
-- with that lexeme, whatever follows.
pub kind_string-next :
    (u : Unicode) (filename : String) (kind : TokenKind) (rest : Runes)
    → has_spelling kind ≡ true
    → ((next u (new filename (codes (kind_string kind) ++ b' ' ∷ rest))).0.kind ≡ kind)
      × ((next u (new filename (codes (kind_string kind) ++ b' ' ∷ rest))).0.lexeme
          ≡ codes (kind_string kind))
unfolding next new kind_string skip_whitespace_and_comments skip_rounds skip_step is_space scan_rune
    is_ident_start lookup_keyword read_ident skip_while is_ident_part symbol_case bracket_case
    colon_case arithmetic_case minus_case comparison_case assign_case runes_eq is_digit amp_case
    bang_case dot_case gt_case lt_case pipe_case
kind_string-next u filename token_fn rest h = (refl, refl)
kind_string-next u filename token_struct rest h = (refl, refl)
kind_string-next u filename token_enum rest h = (refl, refl)
kind_string-next u filename token_impl rest h = (refl, refl)
kind_string-next u filename token_trait rest h = (refl, refl)
kind_string-next u filename token_self rest h = (refl, refl)
kind_string-next u filename token_self_type rest h = (refl, refl)
kind_string-next u filename token_const rest h = (refl, refl)
kind_string-next u filename token_type rest h = (refl, refl)
kind_string-next u filename token_pub rest h = (refl, refl)
kind_string-next u filename token_macro rest h = (refl, refl)
kind_string-next u filename token_quote rest h = (refl, refl)
kind_string-next u filename token_import rest h = (refl, refl)
kind_string-next u filename token_as rest h = (refl, refl)
kind_string-next u filename token_in rest h = (refl, refl)
kind_string-next u filename token_where rest h = (refl, refl)
kind_string-next u filename token_let rest h = (refl, refl)
kind_string-next u filename token_mut rest h = (refl, refl)
kind_string-next u filename token_if rest h = (refl, refl)
kind_string-next u filename token_else rest h = (refl, refl)
kind_string-next u filename token_while rest h = (refl, refl)
kind_string-next u filename token_loop rest h = (refl, refl)
kind_string-next u filename token_for rest h = (refl, refl)
kind_string-next u filename token_break rest h = (refl, refl)
kind_string-next u filename token_continue rest h = (refl, refl)
kind_string-next u filename token_match rest h = (refl, refl)
kind_string-next u filename token_return rest h = (refl, refl)
kind_string-next u filename token_true rest h = (refl, refl)
kind_string-next u filename token_false rest h = (refl, refl)
kind_string-next u filename token_lparen rest h = (refl, refl)
kind_string-next u filename token_rparen rest h = (refl, refl)
kind_string-next u filename token_lbrace rest h = (refl, refl)
kind_string-next u filename token_rbrace rest h = (refl, refl)
kind_string-next u filename token_lbracket rest h = (refl, refl)
kind_string-next u filename token_rbracket rest h = (refl, refl)
kind_string-next u filename token_comma rest h = (refl, refl)
kind_string-next u filename token_colon rest h = (refl, refl)
kind_string-next u filename token_semicolon rest h = (refl, refl)
kind_string-next u filename token_arrow rest h = (refl, refl)
kind_string-next u filename token_fat_arrow rest h = (refl, refl)
kind_string-next u filename token_dot rest h = (refl, refl)
kind_string-next u filename token_colon_colon rest h = (refl, refl)
kind_string-next u filename token_dot_dot rest h = (refl, refl)
kind_string-next u filename token_dot_dot_eq rest h = (refl, refl)
kind_string-next u filename token_at rest h = (refl, refl)
kind_string-next u filename token_dollar rest h = (refl, refl)
kind_string-next u filename token_assign rest h = (refl, refl)
kind_string-next u filename token_plus rest h = (refl, refl)
kind_string-next u filename token_minus rest h = (refl, refl)
kind_string-next u filename token_star rest h = (refl, refl)
kind_string-next u filename token_slash rest h = (refl, refl)
kind_string-next u filename token_percent rest h = (refl, refl)
kind_string-next u filename token_bang rest h = (refl, refl)
kind_string-next u filename token_amp rest h = (refl, refl)
kind_string-next u filename token_pipe rest h = (refl, refl)
kind_string-next u filename token_caret rest h = (refl, refl)
kind_string-next u filename token_shl rest h = (refl, refl)
kind_string-next u filename token_shr rest h = (refl, refl)
kind_string-next u filename token_eq_eq rest h = (refl, refl)
kind_string-next u filename token_not_eq rest h = (refl, refl)
kind_string-next u filename token_lt rest h = (refl, refl)
kind_string-next u filename token_lt_eq rest h = (refl, refl)
kind_string-next u filename token_gt rest h = (refl, refl)
kind_string-next u filename token_gt_eq rest h = (refl, refl)
kind_string-next u filename token_and_and rest h = (refl, refl)
kind_string-next u filename token_or_or rest h = (refl, refl)
kind_string-next u filename token_eof rest h = absurd (ground arith)
kind_string-next u filename token_ident rest h = absurd (ground arith)
kind_string-next u filename token_int rest h = absurd (ground arith)
kind_string-next u filename token_float rest h = absurd (ground arith)
kind_string-next u filename token_string rest h = absurd (ground arith)
kind_string-next u filename token_char rest h = absurd (ground arith)
