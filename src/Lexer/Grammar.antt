-- ===== src/Lexer/Grammar.antt =====
-- A grammar of tokens, against which `Next` is proved.
use dast_lang.Lexer.Token.{
  TokenKind, kind_string, lookup_keyword, token_amp, token_and_and, token_arrow, token_assign,
  token_at, token_bang, token_caret, token_char, token_colon, token_colon_colon, token_comma,
  token_dollar, token_dot, token_dot_dot, token_dot_dot_eq, token_eof, token_eq_eq, token_fat_arrow,
  token_float, token_gt, token_gt_eq, token_int, token_lbrace, token_lbracket, token_lparen,
  token_lt, token_lt_eq, token_minus, token_not_eq, token_or_or, token_percent, token_pipe,
  token_plus, token_rbrace, token_rbracket, token_rparen, token_semicolon, token_shl, token_shr,
  token_slash, token_star, token_string,
}
use dast_lang.Base.{
  if◌then◌else◌, ◌==◌, ◌≢◌, List, ◌≢◌, ℕ, ◌≡◌, true, false, [], ◌∷◌, ◌++◌, All, Runes, codes,
}
use dast_lang.Lexer.State.{first, Lexer}
use dast_lang.Lexer.Chars.{Unicode, is_ident_start, is_ident_part, is_digit}
use dast_lang.Lexer.Literals.{StringText, CharText}
use dast_lang.Lexer.Moves.{Stops, Reads}
use dast_lang.Lexer.Next.{Scanned}

-- A point and a digit stand in front.
abbrev pub FractionFollows : Unicode → Runes → Type 0
FractionFollows u text = (d : ℕ) × (t : Runes) × (text ≡ b'.' ∷ d ∷ t) × (is_digit u d ≡ true)

abbrev pub AllDigits : Unicode → Runes → Type 0
AllDigits u = All (λ r. is_digit u r ≡ true)

-- The kinds of the symbols, whose spellings `kind_string` gives.
abbrev pub symbol_kinds : List TokenKind
symbol_kinds =
    token_lparen ∷ token_rparen ∷ token_lbrace ∷ token_rbrace ∷ token_dollar ∷ token_lbracket
    ∷ token_rbracket ∷ token_comma ∷ token_colon ∷ token_colon_colon ∷ token_semicolon ∷ token_dot
    ∷ token_dot_dot ∷ token_dot_dot_eq ∷ token_at ∷ token_plus ∷ token_minus ∷ token_arrow
    ∷ token_star ∷ token_slash ∷ token_percent ∷ token_bang ∷ token_not_eq ∷ token_assign
    ∷ token_eq_eq ∷ token_fat_arrow ∷ token_lt ∷ token_lt_eq ∷ token_shl ∷ token_gt ∷ token_gt_eq
    ∷ token_shr ∷ token_amp ∷ token_and_and ∷ token_pipe ∷ token_or_or ∷ token_caret ∷ []

abbrev pub first_of : TokenKind → ℕ
first_of kind = first (codes (kind_string kind))

-- The rune behind a prefix, where there is one.
abbrev pub behind : Runes → Runes → Runes
behind [] [] = []
behind [] (c ∷ w) = c ∷ []
behind (p ∷ prefix) [] = []
behind (p ∷ prefix) (c ∷ w) = if p == c then behind prefix w else []

abbrev pub extensions_in : Runes → List TokenKind → Runes
extensions_in text [] = []
extensions_in text (kind ∷ kinds) =
    behind text (codes (kind_string kind)) ++ extensions_in text kinds

-- No longer symbol goes on behind `text`: the next rune is none that one of them has there.
abbrev pub LongestSymbol : Runes → Runes → Type 0
LongestSymbol text rest = All (λ c. (t : Runes) → rest ≢ c ∷ t) (extensions_in text symbol_kinds)

-- A rune that no token starts with: no word, no number, no literal in quotes, and no symbol.
pub record StartsNone (u : Unicode) (r : ℕ) : Type 0 where
  pub word : is_ident_start u r ≡ false
  pub number : is_digit u r ≡ false
  pub string : r ≢ b'"'
  pub char : r ≢ b'\''
  pub symbol : All (λ kind. r ≢ first_of kind) symbol_kinds

-- A token of kind `kind` with lexeme `lex`, written as `text`, where `rest` follows.
pub data TokenText (u : Unicode) (kind : TokenKind) (lex text rest : Runes) : Type 0 where
  word :
      (r : ℕ) (run : Runes)
      → text ≡ r ∷ run
      → lex ≡ text
      → kind ≡ lookup_keyword text
      → is_ident_start u r ≡ true
      → All (λ c. is_ident_part u c ≡ true) run
      → Stops (is_ident_part u) rest
      → TokenText u kind lex text rest
  int :
      (r : ℕ) (run : Runes)
      → text ≡ r ∷ run
      → lex ≡ text
      → kind ≡ token_int
      → AllDigits u text
      → Stops (is_digit u) rest
      → ¬ FractionFollows u rest
      → TokenText u kind lex text rest
  float :
      (r : ℕ) (run : Runes) (d : ℕ) (fraction : Runes)
      → text ≡ (r ∷ run) ++ (b'.' ∷ d ∷ fraction)
      → lex ≡ text
      → kind ≡ token_float
      → AllDigits u (r ∷ run)
      → AllDigits u (d ∷ fraction)
      → Stops (is_digit u) rest
      → TokenText u kind lex text rest
  string :
      (body : Runes)
      → text ≡ b'"' ∷ body
      → kind ≡ token_string
      → StringText body lex
      → TokenText u kind lex text rest
  char :
      (body : Runes)
      → text ≡ b'\'' ∷ body
      → kind ≡ token_char
      → CharText body lex
      → TokenText u kind lex text rest
  symbol :
      (r : ℕ) (run : Runes)
      → text ≡ r ∷ run
      → lex ≡ text
      → codes (kind_string kind) ≡ text
      → LongestSymbol text rest
      → TokenText u kind lex text rest
  end : kind ≡ token_eof → text ≡ [] → lex ≡ [] → rest ≡ [] → TokenText u kind lex text rest
  unfinished_string :
      (w : Runes)
      → kind ≡ token_eof
      → lex ≡ []
      → text ≡ b'"' ∷ w
      → rest ≡ []
      → TokenText u kind lex text rest
  unfinished_char :
      (w : Runes) → kind ≡ token_eof → lex ≡ [] → text ≡ b'\'' ∷ w → TokenText u kind lex text rest
  unknown :
      (r : ℕ)
      → kind ≡ token_eof
      → lex ≡ text
      → text ≡ r ∷ []
      → StartsNone u r
      → TokenText u kind lex text rest

-- `t` is a token that `l` reads.
pub record Scans (u : Unicode) (l : Lexer) (t : Scanned) : Type 0 where
  pub text : Runes
  pub reads : Reads text l t.2
  pub token : TokenText u t.0 t.1 text t.2.rest
