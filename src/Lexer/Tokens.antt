-- ===== src/Lexer/Tokens.antt =====
-- `Next` reads a token of the grammar, behind the blanks of theirs.
use dast_lang.Lexer.Token.{
  Token, TokenKind, token_eof, token_string, token_char, kind_string, lookup_keyword,
}
use dast_lang.Lexer.Unknown.{no_symbol}
use dast_lang.Lexer.Grammar.{
  FractionFollows, AllDigits, TokenText, word, int, float, string, char, symbol, end,
  unfinished_string, unfinished_char, unknown, Scans,
}
use dast_lang.Base.{
  none, some, ==_iff, Option, ◌≢◌, ℕ, ◌≡◌, refl, sym, ◌∙◌, ap, Bool, true, false, not, ◌&&◌, inl,
  inr, [], ◌∷◌, ◌++◌, ◌==◌, Bool-cases, Runes, codes, arith,
}
use dast_lang.Lexer.Next.{
  literal, symbol_case, next, or_unknown, scan_at, scan_rune, Scanned, number_token, ident_token,
}
use dast_lang.Lexer.Symbols.{symbol_case-SpellsAny, SpellsAny}
use dast_lang.Lexer.Literals.{
  char_body-CharRead, string_body-StringRead, CharRead, StringRead, StringText,
}
use dast_lang.Lexer.Moves.{
  Reads-rune, Reads-nil, Stops, Reads, Reads-cons, Reads-append, rest-skip_rune, slice-Reads,
  ReadsRun, skip_while-ReadsRun,
}
use dast_lang.Lexer.State.{position, Lexer, skip_rune, is_empty, first, has_prefix}
use dast_lang.Lexer.Blanks.{SkipsAll, skip_whitespace_and_comments-SkipsAll}
use dast_lang.Lexer.Scan.{
  char_body, string_body, skip_whitespace_and_comments, read_char, read_string, skip_while,
  read_ident, read_fraction, read_number, next_is_digit,
}
use mathlib.Core.Path.{subst, ap₂}
use dast_lang.Lexer.Chars.{Unicode, is_ident_start, is_ident_part, is_digit}

-- A run that starts where `keep` holds is not empty.
run_cons :
    (keep : ℕ → Bool) (r : ℕ) (cs run after : Runes)
    → r ∷ cs ≡ run ++ after
    → Stops keep after
    → keep r ≡ true
    → (w : Runes) × (run ≡ r ∷ w)
run_cons keep r cs [] [] e s h = cc
run_cons keep r cs [] (a ∷ t) e s h = cc
run_cons keep r cs (c ∷ w) after e s h = (w, cc)

ReadsRun-cons :
    {keep : ℕ → Bool} {l l' : Lexer} (r : ℕ) (cs : Runes) (p : ReadsRun keep l l')
    → l.rest ≡ r ∷ cs
    → keep r ≡ true
    → (w : Runes) × (p.run ≡ r ∷ w)
ReadsRun-cons {keep} {l} {l'} r cs p e h =
    run_cons keep r cs p.run l'.rest (sym e ∙ p.reads.splits) p.stops h

read_ident-Scans :
    (u : Unicode) (r : ℕ) (cs : Runes) (l : Lexer)
    → l.rest ≡ r ∷ cs
    → is_ident_start u r ≡ true
    → Scans u l (ident_token (read_ident u l))
unfolding read_ident
read_ident-Scans u r cs l e h =
    let after = skip_rune l in
    let p = skip_while-ReadsRun (is_ident_part u) after.rest after refl in
    let q = Reads-cons r cs l e p.reads in
    record {
      text = r ∷ p.run;
      reads = q;
      token =
          word r p.run refl (slice-Reads q) (ap lookup_keyword (slice-Reads q)) h p.accepted
            p.stops;
    }

-- The test of `readNumber` for a fraction, on the text behind the integer part.
abbrev fraction_test : Unicode → Runes → Bool
fraction_test u cs =
    not (is_empty cs) && first cs == b'.' && not (has_prefix (codes "..") cs) && next_is_digit u cs

fraction_test-true : (u : Unicode) (cs : Runes) → fraction_test u cs ≡ true → FractionFollows u cs
fraction_test-true u [] h = cc
fraction_test-true u (a ∷ []) h = absurd (ground arith)
fraction_test-true u (a ∷ d ∷ t) h = (d, t, ground arith, ground arith)

fraction_test-false :
    (u : Unicode) (cs : Runes) → fraction_test u cs ≡ false → ¬ FractionFollows u cs
unfolding is_digit
fraction_test-false u cs h (d, t, e, k) = ground arith

read_number-Scans :
    (u : Unicode) (r : ℕ) (cs : Runes) (l : Lexer)
    → l.rest ≡ r ∷ cs
    → is_digit u r ≡ true
    → Scans u l (number_token (read_number u l))
unfolding read_number read_fraction
read_number-Scans u r cs l e h =
    let whole = skip_while (is_digit u) l.rest l in
    let p = skip_while-ReadsRun (is_digit u) l.rest l refl in
    let (w, pw) = ReadsRun-cons r cs p e h in
    elim (Bool-cases (fraction_test u whole.rest)) [
      | inr f ↦ rw f (record {
        text = p.run;
        reads = p.reads;
        token =
            int r w pw (slice-Reads p.reads) refl p.accepted p.stops
              (fraction_test-false u whole.rest f);
      })
      | inl t ↦ rw t (
          let (d, ds, q, k) = fraction_test-true u whole.rest t in
          let point = skip_rune whole in
          let behind = rest-skip_rune b'.' (d ∷ ds) whole q in
          let p' = skip_while-ReadsRun (is_digit u) point.rest point refl in
          let (v, pv) = ReadsRun-cons d ds p' behind k in
          let all = Reads-append p.reads (Reads-cons b'.' (d ∷ ds) whole q p'.reads) in
          record {
            text = p.run ++ b'.' ∷ p'.run;
            reads = all;
            token =
                float r w d v (ap₂ (λ x y. x ++ b'.' ∷ y) pw pv) (slice-Reads all) refl
                  (subst (AllDigits u) pw p.accepted) (subst (AllDigits u) pv p'.accepted) p'.stops;
          })
    ]

kind_string-ne-nil : (kind : TokenKind) → codes (kind_string kind) ≢ []
unfolding kind_string
kind_string-ne-nil token_eof = cc
kind_string-ne-nil _ = cc

read_string-Scans :
    (u : Unicode) (r : ℕ) (cs : Runes) (l : Lexer)
    → l.rest ≡ r ∷ cs
    → (r == b'"') ≡ true
    → Scans u l (literal token_string (read_string l))
unfolding read_string
read_string-Scans u r cs l e h =
    let body = skip_rune l in
    go (string_body body.rest body []) (string_body-StringRead body.rest body [] refl)
  where
    quote : (t : Runes) → r ∷ t ≡ b'"' ∷ t
    quote t = ap (λ c. c ∷ t) ((==_iff r b'"').0 h)

    go :
        (res : Option Runes × Lexer)
        → StringRead (skip_rune l) [] res
        → Scans u l (literal token_string res)
    go (none, l') ((w, m), z) = record {
      text = r ∷ w;
      reads = Reads-cons r cs l e m;
      token = unfinished_string w refl refl (quote w) z;
    }
    go (some lex, l') (t, v, g, m, x) = record {
      text = r ∷ t;
      reads = Reads-cons r cs l e m;
      token = string t (quote t) refl (subst (StringText t) (sym x) g);
    }

read_char-Scans :
    (u : Unicode) (r : ℕ) (cs : Runes) (l : Lexer)
    → l.rest ≡ r ∷ cs
    → (r == b'\'') ≡ true
    → Scans u l (literal token_char (read_char l))
unfolding read_char
read_char-Scans u r cs l e h =
    let body = skip_rune l in go (char_body body.rest body) (char_body-CharRead body.rest body refl)
  where
    quote : (t : Runes) → r ∷ t ≡ b'\'' ∷ t
    quote t = ap (λ c. c ∷ t) ((==_iff r b'\'').0 h)

    go :
        (res : Option Runes × Lexer)
        → CharRead (skip_rune l) res
        → Scans u l (literal token_char res)
    go (none, l') (w, m) = record {
      text = r ∷ w;
      reads = Reads-cons r cs l e m;
      token = unfinished_char w refl refl (quote w);
    }
    go (some lex, l') (t, g, m) = record {
      text = r ∷ t;
      reads = Reads-cons r cs l e m;
      token = char t (quote t) refl g;
    }

not_eq : (r c : ℕ) → (r == c) ≡ false → r ≢ c
not_eq r c e = ground arith

symbol_case-Scans :
    (u : Unicode) (r : ℕ) (cs : Runes) (l : Lexer)
    → l.rest ≡ r ∷ cs
    → is_ident_start u r ≡ false
    → is_digit u r ≡ false
    → r ≢ b'"'
    → r ≢ b'\''
    → Scans u l (or_unknown r (skip_rune l) (symbol_case r (skip_rune l)))
symbol_case-Scans u r cs l e i d q a =
    go (symbol_case r (skip_rune l)) refl
      (symbol_case-SpellsAny l (skip_rune l) r (Reads-rune r cs l e))
  where
    go :
        (s : Option Scanned)
        → symbol_case r (skip_rune l) ≡ s
        → SpellsAny l s
        → Scans u l (or_unknown r (skip_rune l) s)
    go none n p = record {
      text = r ∷ [];
      reads = Reads-rune r cs l e;
      token = unknown r refl refl refl (record {
        word = i;
        number = d;
        string = q;
        char = a;
        symbol = no_symbol r (skip_rune l) n;
      });
    }
    go (some (kind, [], l')) n p = absurd (kind_string-ne-nil kind p.spelled)
    go (some (kind, c ∷ lex, l')) n p = record {
      text = c ∷ lex;
      reads = p.reads;
      token = symbol c lex refl refl p.spelled p.longest;
    }

scan_rune-Scans :
    (u : Unicode) (r : ℕ) (cs : Runes) (l : Lexer) → l.rest ≡ r ∷ cs → Scans u l (scan_rune u r l)
unfolding scan_rune
scan_rune-Scans u r cs l e = elim (Bool-cases (is_ident_start u r)) [
  | inl h ↦ rw h (read_ident-Scans u r cs l e h)
  | inr i ↦ elim (Bool-cases (is_digit u r)) [
    | inl h ↦ rw (i, h) (read_number-Scans u r cs l e h)
    | inr d ↦ elim (Bool-cases (r == b'"')) [
      | inl h ↦ rw (i, d, h) (read_string-Scans u r cs l e h)
      | inr q ↦ elim (Bool-cases (r == b'\'')) [
        | inl h ↦ rw (i, d, q, h) (read_char-Scans u r cs l e h)
        | inr a ↦
            rw (i, d, q, a) (symbol_case-Scans u r cs l e i d (not_eq r b'"' q) (not_eq r b'\'' a))
      ]
    ]
  ]
]

scan_at-Scans : (u : Unicode) (cs : Runes) (l : Lexer) → l.rest ≡ cs → Scans u l (scan_at u cs l)
scan_at-Scans u [] l e = record { text = []; reads = Reads-nil l; token = end refl refl refl e }
scan_at-Scans u (r ∷ cs) l e = scan_rune-Scans u r cs l e

-- From `l` the blanks are skipped, and then the token `tok` is read, which its span encloses.
pub record Tokenizes (u : Unicode) (l : Lexer) (tok : Token) (l' : Lexer) : Type 0 where
  pub from : Lexer
  pub skips : SkipsAll u l from
  pub text : Runes
  pub reads : Reads text from l'
  pub token : TokenText u tok.kind tok.lexeme text l'.rest
  pub spans : tok.span ≡ record { start = position from; end = position l' }

pub next-Tokenizes : (u : Unicode) (l : Lexer) → Tokenizes u l (next u l).0 (next u l).1
unfolding next
next-Tokenizes u l =
    let from = skip_whitespace_and_comments u l in
    let s = scan_at-Scans u from.rest from refl in
    record {
      from = from;
      skips = skip_whitespace_and_comments-SkipsAll u l;
      text = s.text;
      reads = s.reads;
      token = s.token;
      spans = refl;
    }
