-- ===== src/Lexer/Next.antt =====
-- `Next` and `DebugTokens` of compiler/stage0/internal/lexer/lexer.go, and `lexTokens` of
-- parser/helpers.go, which is the same loop.
use dast_lang.Base.{
  ℕ, zero, suc, String, Bool, true, false, Option, none, some, List, [], ◌∷◌, ◌==◌, if◌then◌else◌,
  length, Runes, codes,
}
use dast_lang.Source.{Position}
use dast_lang.Lexer.Chars.{Unicode, is_ident_start, is_digit}
use dast_lang.Lexer.Scan.{
  skip_whitespace_and_comments, read_ident, read_number, read_string, read_char,
}
use dast_lang.Lexer.State.{Lexer, new, position, skip_rune, match}
use dast_lang.Lexer.Token.{
  TokenKind, token_eof, token_int, token_float, token_string, token_char, token_lparen,
  token_rparen, token_lbrace, token_rbrace, token_dollar, token_lbracket, token_rbracket,
  token_comma, token_colon_colon, token_colon, token_semicolon, token_dot_dot_eq, token_dot_dot,
  token_dot, token_at, token_plus, token_arrow, token_minus, token_star, token_slash, token_percent,
  token_not_eq, token_bang, token_eq_eq, token_fat_arrow, token_assign, token_shl, token_lt_eq,
  token_lt, token_shr, token_gt_eq, token_gt, token_and_and, token_amp, token_or_or, token_pipe,
  token_caret, Token, lookup_keyword,
}

-- A kind with its lexeme, and the state behind it.
abbrev pub Scanned : Type 0
Scanned = TokenKind × Runes × Lexer

-- The token that starts at `start` and ends where the state stands.
abbrev pub finish_token : Position → Scanned → Token × Lexer
finish_token start (kind, lex, l) =
    (record { kind = kind; lexeme = lex; span = record { start = start; end = position l } }, l)

-- `if l.match(c) { return hit }; return miss`.
abbrev pub or_if : ℕ → TokenKind → String → Lexer → Scanned → Scanned
or_if c hit text l miss =
    let (found, l') = match c l in if found then (hit, codes text, l') else miss

-- The cases of the switch of `Next` on a symbol; `l` is the state after the first `advance`.
unfoldable pub colon_case : Lexer → Scanned
colon_case l = or_if b':' token_colon_colon "::" l (token_colon, codes ":", l)

unfoldable pub dot_case : Lexer → Scanned
dot_case l =
    let (found, l') = match b'.' l in
    if found
    then or_if b'=' token_dot_dot_eq "..=" l' (token_dot_dot, codes "..", l')
    else (token_dot, codes ".", l)

unfoldable pub minus_case : Lexer → Scanned
minus_case l = or_if b'>' token_arrow "->" l (token_minus, codes "-", l)

unfoldable pub bang_case : Lexer → Scanned
bang_case l = or_if b'=' token_not_eq "!=" l (token_bang, codes "!", l)

unfoldable pub assign_case : Lexer → Scanned
assign_case l =
    or_if b'=' token_eq_eq "==" l (or_if b'>' token_fat_arrow "=>" l (token_assign, codes "=", l))

unfoldable pub lt_case : Lexer → Scanned
lt_case l = or_if b'<' token_shl "<<" l (or_if b'=' token_lt_eq "<=" l (token_lt, codes "<", l))

unfoldable pub gt_case : Lexer → Scanned
gt_case l = or_if b'>' token_shr ">>" l (or_if b'=' token_gt_eq ">=" l (token_gt, codes ">", l))

unfoldable pub amp_case : Lexer → Scanned
amp_case l = or_if b'&' token_and_and "&&" l (token_amp, codes "&", l)

unfoldable pub pipe_case : Lexer → Scanned
pipe_case l = or_if b'|' token_or_or "||" l (token_pipe, codes "|", l)

-- The symbols from `(` to `;`, in the order of the switch.
unfoldable pub bracket_case : ℕ → Lexer → Option Scanned
bracket_case r l =
    if r == b'('
    then some (token_lparen, codes "(", l)
    else if r == b')'
    then some (token_rparen, codes ")", l)
    else if r == b'{'
    then some (token_lbrace, codes "{", l)
    else if r == b'}'
    then some (token_rbrace, codes "}", l)
    else if r == b'$'
    then some (token_dollar, codes "$", l)
    else if r == b'['
    then some (token_lbracket, codes "[", l)
    else if r == b']'
    then some (token_rbracket, codes "]", l)
    else if r == b','
    then some (token_comma, codes ",", l)
    else if r == b':'
    then some (colon_case l)
    else if r == b';'
    then some (token_semicolon, codes ";", l)
    else none

-- The symbols from `.` to `%`.
unfoldable pub arithmetic_case : ℕ → Lexer → Option Scanned
arithmetic_case r l =
    if r == b'.'
    then some (dot_case l)
    else if r == b'@'
    then some (token_at, codes "@", l)
    else if r == b'+'
    then some (token_plus, codes "+", l)
    else if r == b'-'
    then some (minus_case l)
    else if r == b'*'
    then some (token_star, codes "*", l)
    else if r == b'/'
    then some (token_slash, codes "/", l)
    else if r == b'%'
    then some (token_percent, codes "%", l)
    else none

-- The symbols from `!` to `^`.
unfoldable pub comparison_case : ℕ → Lexer → Option Scanned
comparison_case r l =
    if r == b'!'
    then some (bang_case l)
    else if r == b'='
    then some (assign_case l)
    else if r == b'<'
    then some (lt_case l)
    else if r == b'>'
    then some (gt_case l)
    else if r == b'&'
    then some (amp_case l)
    else if r == b'|'
    then some (pipe_case l)
    else if r == b'^'
    then some (token_caret, codes "^", l)
    else none

abbrev pub or_else : Option Scanned → Option Scanned → Option Scanned
or_else none other = other
or_else (some t) other = some t

unfoldable pub symbol_case : ℕ → Lexer → Option Scanned
symbol_case r l = or_else (bracket_case r l) (or_else (arithmetic_case r l) (comparison_case r l))

-- An unfinished literal gives the kind EOF and no lexeme.
abbrev pub literal : TokenKind → Option Runes × Lexer → Scanned
literal kind (none, l) = (token_eof, [], l)
literal kind (some lex, l) = (kind, lex, l)

-- A rune that starts no token gives the kind EOF, with the rune for its lexeme.
abbrev pub or_unknown : ℕ → Lexer → Option Scanned → Scanned
or_unknown r l none = (token_eof, r ∷ [], l)
or_unknown r l (some t) = t

abbrev pub number_token : Runes × Bool × Lexer → Scanned
number_token (lex, is_float, l) = (if is_float then token_float else token_int, lex, l)

abbrev pub ident_token : Runes × Lexer → Scanned
ident_token (lex, l) = (lookup_keyword lex, lex, l)

-- `Next` at a rune, the blanks and comments before it skipped.
unfoldable pub scan_rune : Unicode → ℕ → Lexer → Scanned
scan_rune u r l =
    if is_ident_start u r
    then ident_token (read_ident u l)
    else if is_digit u r
    then number_token (read_number u l)
    else if r == b'"'
    then literal token_string (read_string l)
    else if r == b'\''
    then literal token_char (read_char l)
    else or_unknown r (skip_rune l) (symbol_case r (skip_rune l))

abbrev pub scan_at : Unicode → Runes → Lexer → Scanned
scan_at u [] l = (token_eof, [], l)
scan_at u (r ∷ _) l = scan_rune u r l

unfoldable pub next : Unicode → Lexer → Token × Lexer
next u l =
    let l' = skip_whitespace_and_comments u l in finish_token (position l') (scan_at u l'.rest l')

abbrev pub is_eof : TokenKind → Bool
is_eof token_eof = true
is_eof _ = false

-- The loop of `DebugTokens` and of `lexTokens`, on fuel; `none` means that the fuel ran out.
unfoldable pub lex_tokens : Unicode → ℕ → Lexer → Option (List Token)
lex_tokens u zero l = none
lex_tokens u (suc fuel) l =
    let (tok, l') = next u l in
    elim (is_eof tok.kind) [
      | true ↦ some (tok ∷ [])
      | false ↦ elim (lex_tokens u fuel l') [ none ↦ none | some toks ↦ some (tok ∷ toks) ]
    ]

unfoldable pub debug_tokens : Unicode → String → Runes → Option (List Token)
debug_tokens u filename input = lex_tokens u (suc (length input)) (new filename input)
