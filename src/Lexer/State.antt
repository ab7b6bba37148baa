-- ===== src/Lexer/State.antt =====
-- The lexer's state and its primitive moves: `Lexer`, `New`, `position`, `eof`, `peek`, `advance`,
-- `match` and `peekAhead` of compiler/stage0/internal/lexer/lexer.go.
use dast_lang.Base.{
  ℕ, ◌+◌, ◌-◌, String, Bool, true, false, ◌&&◌, [], ◌∷◌, ◌==◌, if◌then◌else◌, take, Runes,
}
use dast_lang.Source.{Position}

-- `rest` is `src[idx:]`, what is not read yet.
pub record Lexer : Type 0 where
  pub filename : String
  pub rest : Runes
  pub idx : ℕ
  pub line : ℕ
  pub col : ℕ

unfoldable pub new : String → Runes → Lexer
new filename input = record { filename = filename; rest = input; idx = 0; line = 1; col = 1 }

abbrev pub position : Lexer → Position
position l = record { filename = l.filename; line = l.line; column = l.col }

abbrev pub is_empty : Runes → Bool
is_empty [] = true
is_empty (_ ∷ _) = false

abbrev pub eof : Lexer → Bool
eof l = is_empty l.rest

-- The rune at the cursor, or 0 at the end.
abbrev pub first : Runes → ℕ
first [] = 0
first (r ∷ _) = r

abbrev pub peek : Lexer → ℕ
peek l = first l.rest

-- The cursor behind rune `r`, with `unread` to follow.
abbrev pub past : ℕ → Runes → Lexer → Lexer
past r unread l = record {
  filename = l.filename;
  rest = unread;
  idx = l.idx + 1;
  line = if r == b'\n' then l.line + 1 else l.line;
  col = if r == b'\n' then 1 else l.col + 1;
}

abbrev pub advance_in : Runes → Lexer → ℕ × Lexer
advance_in [] l = (0, l)
advance_in (r ∷ unread) l = (r, past r unread l)

abbrev pub advance : Lexer → ℕ × Lexer
advance l = advance_in l.rest l

-- A call of `advance` whose result is dropped.
abbrev pub skip_rune : Lexer → Lexer
skip_rune l = (advance l).1

abbrev pub match_in : Runes → ℕ → Lexer → Bool × Lexer
match_in [] expected l = (false, l)
match_in (r ∷ _) expected l = if r == expected then (true, skip_rune l) else (false, l)

abbrev pub match : ℕ → Lexer → Bool × Lexer
match expected l = match_in l.rest expected l

-- Does the text begin with `s`?
abbrev pub has_prefix : Runes → Runes → Bool
has_prefix [] text = true
has_prefix (_ ∷ _) [] = false
has_prefix (c ∷ s) (r ∷ text) = r == c && has_prefix s text

abbrev pub peek_ahead : Runes → Lexer → Bool
peek_ahead s l = has_prefix s l.rest

-- `src[start.idx:end.idx]`.
abbrev pub slice : Lexer → Lexer → Runes
slice start end = take (end.idx - start.idx) start.rest
