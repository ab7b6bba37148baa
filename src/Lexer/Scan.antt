-- ===== src/Lexer/Scan.antt =====
-- The scanning loops of compiler/stage0/internal/lexer/lexer.go. A loop recurs on the unread runes,
-- which its caller passes beside the state.
use dast_lang.Base.{
  ℕ, zero, suc, Bool, true, false, not, ◌&&◌, Option, none, some, [], ◌∷◌, ◌++◌, ◌==◌,
  if◌then◌else◌, length, Runes, codes,
}
use dast_lang.Lexer.Chars.{Unicode, is_space, is_digit, is_ident_part}
use dast_lang.Lexer.State.{Lexer, eof, peek, skip_rune, peek_ahead, slice}

-- `for !l.eof() && keep(l.peek()) { l.advance() }`.
unfoldable pub skip_while : (ℕ → Bool) → Runes → Lexer → Lexer
skip_while keep [] l = l
skip_while keep (r ∷ unread) l = elim (keep r) [
  | true ↦ skip_while keep unread (skip_rune l)
  | false ↦ l
]

-- The loop behind `/*`: past the first `*/`, or to the end.
unfoldable pub skip_block : Runes → Lexer → Lexer
skip_block [] l = l
skip_block (_ ∷ unread) l = elim (peek_ahead (codes "*/") l) [
  | true ↦ skip_rune (skip_rune l)
  | false ↦ skip_block unread (skip_rune l)
]

abbrev pub not_newline : ℕ → Bool
not_newline r = not (r == b'\n')

unfoldable pub skip_line_comment : Lexer → Lexer
skip_line_comment l = let body = skip_rune (skip_rune l) in skip_while not_newline body.rest body

unfoldable pub skip_block_comment : Lexer → Lexer
skip_block_comment l = let body = skip_rune (skip_rune l) in skip_block body.rest body

-- One round of the loop of `skipWhitespaceAndComments`: `none` where it returns.
unfoldable pub skip_step : Unicode → Runes → Lexer → Option Lexer
skip_step u [] l = none
skip_step u (r ∷ _) l =
    if is_space u r
    then some (skip_rune l)
    else if r == b'/' && peek_ahead (codes "//") l
    then some (skip_line_comment l)
    else if r == b'/' && peek_ahead (codes "/*") l
    then some (skip_block_comment l)
    else none

-- The rounds, on fuel: each takes a rune at least.
unfoldable pub skip_rounds : Unicode → ℕ → Lexer → Lexer
skip_rounds u zero l = l
skip_rounds u (suc fuel) l = elim (skip_step u l.rest l) [
  | none ↦ l
  | some l' ↦ skip_rounds u fuel l'
]

unfoldable pub skip_whitespace_and_comments : Unicode → Lexer → Lexer
skip_whitespace_and_comments u l = skip_rounds u (suc (length l.rest)) l

unfoldable pub read_ident : Unicode → Lexer → Runes × Lexer
read_ident u l =
    let after = skip_rune l in
    let l' = skip_while (is_ident_part u) after.rest after in (slice l l', l')

abbrev pub next_is_digit : Unicode → Runes → Bool
next_is_digit u (_ ∷ r ∷ _) = is_digit u r
next_is_digit u _ = false

abbrev pub peek_next_is_digit : Unicode → Lexer → Bool
peek_next_is_digit u l = next_is_digit u l.rest

-- After the integer part `whole`: the point and the digits behind it.
unfoldable pub read_fraction : Unicode → Lexer → Lexer → Runes × Bool × Lexer
read_fraction u l whole =
    let point = skip_rune whole in
    let l' = skip_while (is_digit u) point.rest point in (slice l l', true, l')

-- The flag tells a float.
unfoldable pub read_number : Unicode → Lexer → Runes × Bool × Lexer
read_number u l =
    let whole = skip_while (is_digit u) l.rest l in
    if not (eof whole)
      && peek whole == b'.'
      && not (peek_ahead (codes "..") whole)
      && peek_next_is_digit u whole
    then read_fraction u l whole
    else (slice l whole, false, whole)

-- The rune that an escape in a string literal stands for.
unfoldable pub unescape_in_string : ℕ → ℕ
unescape_in_string n =
    if n == b'n'
    then b'\n'
    else if n == b't'
    then b'\t'
    else if n == b'\\'
    then b'\\'
    else if n == b'"'
    then b'"'
    else n

unfoldable mutual
  pub string_body : Runes → Lexer → Runes → Option Runes × Lexer
  string_body [] l out = (none, l)
  string_body (r ∷ unread) l out = elim (r == b'"') [
    | true ↦ (some out, skip_rune l)
    | false ↦ elim (r == b'\\') [
      | true ↦ string_escape unread (skip_rune l) out
      | false ↦ string_body unread (skip_rune l) (out ++ r ∷ [])
    ]
  ]

  pub string_escape : Runes → Lexer → Runes → Option Runes × Lexer
  string_escape [] l out = (none, l)
  string_escape (n ∷ unread) l out =
      string_body unread (skip_rune l) (out ++ unescape_in_string n ∷ [])

unfoldable pub read_string : Lexer → Option Runes × Lexer
read_string l = let body = skip_rune l in string_body body.rest body []

-- The rune that an escape in a character literal stands for.
unfoldable pub unescape_in_char : ℕ → ℕ
unescape_in_char n =
    if n == b'n'
    then b'\n'
    else if n == b't'
    then b'\t'
    else if n == b'r'
    then b'\r'
    else if n == b'\\'
    then b'\\'
    else if n == b'\''
    then b'\''
    else n

-- The end of `readChar`: the closing quote.
unfoldable pub close_char : ℕ → Lexer → Option Runes × Lexer
close_char out l =
    if eof l
    then (none, l)
    else if not (peek l == b'\'')
    then (none, l)
    else (some (out ∷ []), skip_rune l)

-- `readChar` behind the opening quote.
unfoldable pub char_body : Runes → Lexer → Option Runes × Lexer
char_body [] l = (none, l)
char_body (r ∷ []) l = if r == b'\\' then (none, skip_rune l) else close_char r (skip_rune l)
char_body (r ∷ n ∷ _) l =
    if r == b'\\'
    then close_char (unescape_in_char n) (skip_rune (skip_rune l))
    else close_char r (skip_rune l)

unfoldable pub read_char : Lexer → Option Runes × Lexer
read_char l = let body = skip_rune l in char_body body.rest body
