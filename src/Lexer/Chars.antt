-- ===== src/Lexer/Chars.antt =====
-- The character classes that lexer.go takes from package unicode. Latin-1 is written out; the tables
-- beyond it are a parameter.
use dast_lang.Base.{ℕ, Bool, ◌&&◌, ◌||◌, ◌==◌, leb, if◌then◌else◌}

-- Go's range tables above U+00FF.
pub record Unicode : Type 0 where
  pub letter : ℕ → Bool
  pub digit : ℕ → Bool
  pub white_space : ℕ → Bool

abbrev pub within : ℕ → ℕ → ℕ → Bool
within lo hi r = leb lo r && leb r hi

module _ (u : Unicode) where
  -- `unicode.IsSpace`.
  unfoldable pub is_space : ℕ → Bool
  is_space r =
      if leb r 0xff then within 9 13 r || r == 32 || r == 0x85 || r == 0xa0 else u.white_space r

  -- `unicode.IsDigit`.
  unfoldable pub is_digit : ℕ → Bool
  is_digit r = if leb r 0xff then within b'0' b'9' r else u.digit r

  -- `unicode.IsLetter`.
  unfoldable pub is_letter : ℕ → Bool
  is_letter r =
      if leb r 0xff
      then within b'a' b'z' r
        || within b'A' b'Z' r
        || r == 0xaa
        || r == 0xb5
        || r == 0xba
        || within 0xc0 0xd6 r
        || within 0xd8 0xf6 r
        || within 0xf8 0xff r
      else u.letter r

  unfoldable pub is_ident_start : ℕ → Bool
  unfolding is_letter
  is_ident_start r = r == b'_' || is_letter r

  unfoldable pub is_ident_part : ℕ → Bool
  unfolding is_letter is_digit
  is_ident_part r = r == b'_' || is_letter r || is_digit r
