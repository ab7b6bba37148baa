-- ===== src/Lexer/Literals.antt =====
-- String and character literals: what `readString` and `readChar` read, against a grammar of literals.
use dast_lang.Base.{
  ℕ, ◌≡◌, refl, sym, ◌∙◌, true, false, inl, inr, [], ◌∷◌, ◌++◌, append_assoc, append-nil, ◌==◌,
  ==_iff, Bool-cases, Option, none, some, Runes, arith,
}
use dast_lang.Lexer.Moves.{
  Reads, Reads-nil, Reads-rune, Reads-cons, Reads-append, rest-skip_rune, Moves,
}
use dast_lang.Lexer.Scan.{string_body, unescape_in_string, unescape_in_char, close_char, char_body}
use dast_lang.Lexer.State.{Lexer, skip_rune}

-- The text behind the opening quote of a string literal, its closing quote included, and its value.
pub data StringText : Runes → Runes → Type 0 where
  close : StringText (b'"' ∷ []) []
  plain :
      {t v : Runes} (r : ℕ)
      → (r == b'"') ≡ false
      → (r == b'\\') ≡ false
      → StringText t v
      → StringText (r ∷ t) (r ∷ v)
  escape :
      {t v : Runes} (n : ℕ) → StringText t v → StringText (b'\\' ∷ n ∷ t) (unescape_in_string n ∷ v)

-- A result of the loop that starts at `l` with the value `out` so far.
abbrev pub StringRead : Lexer → Runes → Option Runes × Lexer → Type 0
StringRead l out (none, l') = Moves l l' × (l'.rest ≡ [])
StringRead l out (some lex, l') =
    (t : Runes) × (v : Runes) × StringText t v × Reads t l l' × (lex ≡ out ++ v)

plain-StringRead :
    (r : ℕ) (cs : Runes) (l : Lexer) (out : Runes) (res : Option Runes × Lexer)
    → l.rest ≡ r ∷ cs
    → (r == b'"') ≡ false
    → (r == b'\\') ≡ false
    → StringRead (skip_rune l) (out ++ r ∷ []) res
    → StringRead l out res
plain-StringRead r cs l out (none, l') e q b ((w, m), z) = ((r ∷ w, Reads-cons r cs l e m), z)
plain-StringRead r cs l out (some lex, l') e q b (t, v, g, m, x) =
    (r ∷ t, r ∷ v, plain r q b g, Reads-cons r cs l e m, x ∙ append_assoc out (r ∷ []) v)

escape-StringRead :
    (r n : ℕ) (cs : Runes) (l : Lexer) (out : Runes) (res : Option Runes × Lexer)
    → l.rest ≡ r ∷ n ∷ cs
    → (r == b'\\') ≡ true
    → StringRead (skip_rune (skip_rune l)) (out ++ unescape_in_string n ∷ []) res
    → StringRead l out res
escape-StringRead r n cs l out (none, l') e b ((w, m), z) =
    let e' = rest-skip_rune r (n ∷ cs) l e in
    ((r ∷ n ∷ w, Reads-cons r (n ∷ cs) l e (Reads-cons n cs (skip_rune l) e' m)), z)
escape-StringRead r n cs l out (some lex, l') e b (t, v, g, m, x) =
    let e' = rest-skip_rune r (n ∷ cs) l e in
    let is_backslash = (==_iff r b'\\').0 b in
    (
      r ∷ n ∷ t,
      unescape_in_string n ∷ v,
      rw is_backslash (escape n g),
      Reads-cons r (n ∷ cs) l e (Reads-cons n cs (skip_rune l) e' m),
      x ∙ append_assoc out (unescape_in_string n ∷ []) v,
    )

close-StringRead :
    (r : ℕ) (cs : Runes) (l : Lexer) (out : Runes)
    → l.rest ≡ r ∷ cs
    → (r == b'"') ≡ true
    → StringRead l out (some out, skip_rune l)
close-StringRead r cs l out e q =
    (r ∷ [], [], rw ((==_iff r b'"').0 q) close, Reads-rune r cs l e, sym (append-nil out))

pub string_body-StringRead :
    (cs : Runes) (l : Lexer) (out : Runes) → l.rest ≡ cs → StringRead l out (string_body cs l out)
unfolding string_body
string_body-StringRead [] l out e = (([], Reads-nil l), e)
string_body-StringRead (r ∷ []) l out e = elim (Bool-cases (r == b'"')) [
  | inl q ↦ rw (q, string_body) (close-StringRead r [] l out e q)
  | inr q ↦ elim (Bool-cases (r == b'\\')) [
    | inl b ↦ rw (q, b, string_body) ((r ∷ [], Reads-rune r [] l e), rest-skip_rune r [] l e)
    | inr b ↦
        rw (q, b, string_body)
          (plain-StringRead r [] l out (string_body [] (skip_rune l) (out ++ r ∷ [])) e q b
            (string_body-StringRead [] (skip_rune l) (out ++ r ∷ []) (rest-skip_rune r [] l e)))
  ]
]
string_body-StringRead (r ∷ n ∷ cs) l out e = elim (Bool-cases (r == b'"')) [
  | inl q ↦ rw (q, string_body) (close-StringRead r (n ∷ cs) l out e q)
  | inr q ↦ elim (Bool-cases (r == b'\\')) [
    | inl b ↦
        rw (q, b, string_body)
          (escape-StringRead r n cs l out
            (string_body cs (skip_rune (skip_rune l)) (out ++ unescape_in_string n ∷ [])) e b
            (string_body-StringRead cs (skip_rune (skip_rune l)) (out ++ unescape_in_string n ∷ [])
              (rest-skip_rune n cs (skip_rune l) (rest-skip_rune r (n ∷ cs) l e))))
    | inr b ↦
        rw (q, b, string_body)
          (plain-StringRead r (n ∷ cs) l out (string_body (n ∷ cs) (skip_rune l) (out ++ r ∷ [])) e
            q b
            (string_body-StringRead (n ∷ cs) (skip_rune l) (out ++ r ∷ [])
              (rest-skip_rune r (n ∷ cs) l e)))
  ]
]

-- The text behind the opening quote of a character literal, and its value.
pub data CharText : Runes → Runes → Type 0 where
  plain : (r : ℕ) → (r == b'\\') ≡ false → CharText (r ∷ b'\'' ∷ []) (r ∷ [])
  escape : (n : ℕ) → CharText (b'\\' ∷ n ∷ b'\'' ∷ []) (unescape_in_char n ∷ [])

abbrev pub CharRead : Lexer → Option Runes × Lexer → Type 0
CharRead l (none, l') = Moves l l'
CharRead l (some lex, l') = (t : Runes) × CharText t lex × Reads t l l'

-- Behind the value of a literal whose text so far is `v`.
close_char-CharRead :
    (out : ℕ) (v : Runes) (l m : Lexer)
    → Reads v l m
    → CharText (v ++ b'\'' ∷ []) (out ∷ [])
    → CharRead l (close_char out m)
unfolding close_char
close_char-CharRead out v l m p g = go m.rest refl
  where
    go : (cs : Runes) → m.rest ≡ cs → CharRead l (close_char out m)
    go [] e = let h : close_char out m ≡ (none, m) = ground arith in rw h (v, p)
    go (r ∷ cs) e = elim (Bool-cases (r == b'\'')) [
      | inl q ↦
          let h : close_char out m ≡ (some (out ∷ []), skip_rune m) = ground arith in
          let e' : m.rest ≡ b'\'' ∷ cs = ground arith in
          rw h (v ++ b'\'' ∷ [], g, Reads-append p (Reads-rune b'\'' cs m e'))
      | inr q ↦ let h : close_char out m ≡ (none, m) = ground arith in rw h (v, p)
    ]

pub char_body-CharRead : (cs : Runes) (l : Lexer) → l.rest ≡ cs → CharRead l (char_body cs l)
unfolding char_body
char_body-CharRead [] l e = ([], Reads-nil l)
char_body-CharRead (r ∷ []) l e = elim (Bool-cases (r == b'\\')) [
  | inl b ↦ rw (b, char_body) (r ∷ [], Reads-rune r [] l e)
  | inr b ↦
      rw (b, char_body)
        (close_char-CharRead r (r ∷ []) l (skip_rune l) (Reads-rune r [] l e) (plain r b))
]
char_body-CharRead (r ∷ n ∷ cs) l e = elim (Bool-cases (r == b'\\')) [
  | inl b ↦
      rw (b, char_body)
        (close_char-CharRead (unescape_in_char n) (r ∷ n ∷ []) l (skip_rune (skip_rune l))
          (Reads-cons r (n ∷ cs) l e
            (Reads-rune n cs (skip_rune l) (rest-skip_rune r (n ∷ cs) l e)))
          (rw ((==_iff r b'\\').0 b) (escape n)))
  | inr b ↦
      rw (b, char_body)
        (close_char-CharRead r (r ∷ []) l (skip_rune l) (Reads-rune r (n ∷ cs) l e) (plain r b))
]
