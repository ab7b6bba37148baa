-- ===== src/Lexer/Stream.antt =====
-- The token loop ends, and every token that it returns is a token of the text, at its place.
use dast_lang.Lexer.Token.{Token, TokenKind, token_eof}
use dast_lang.Lexer.Positions.{Reads-IsPositionOf, IsPositionOf, At, new-At, Reads-At}
use mathlib.Core.Path.{subst}
use dast_lang.Base.{
  length-append, ℕ, zero, suc, ◌<◌, ◌≡◌, ◌≢◌, refl, sym, ◌∙◌, ap, true, false, inl, inr, [], ◌∷◌,
  ◌++◌, List, Bool-cases, some, length, All, Runes, String, arith,
}
use dast_lang.Lexer.Chars.{Unicode}
use dast_lang.Lexer.Grammar.{TokenText}
use dast_lang.Lexer.Next.{next, is_eof, lex_tokens, debug_tokens}
use dast_lang.Lexer.State.{Lexer, new}
use dast_lang.Lexer.Tokens.{Tokenizes, next-Tokenizes}
use dast_lang.Source.{Span}

is_eof-false : (kind : TokenKind) → is_eof kind ≡ false → kind ≢ token_eof
is_eof-false kind h e = cc

TokenText-cons :
    {u : Unicode} {kind : TokenKind} {lex text rest : Runes}
    → TokenText u kind lex text rest
    → kind ≢ token_eof
    → (r : ℕ) × (w : Runes) × (text ≡ r ∷ w)
TokenText-cons (TokenText.word r run e _ _ _ _ _) n = (r, run, e)
TokenText-cons (TokenText.int r run e _ _ _ _ _) n = (r, run, e)
TokenText-cons (TokenText.float r run d fraction e _ _ _ _ _) n = (r, _, e)
TokenText-cons (TokenText.string body e _ _) n = (_, body, e)
TokenText-cons (TokenText.char body e _ _) n = (_, body, e)
TokenText-cons (TokenText.symbol r run e _ _ _) n = (r, run, e)
TokenText-cons (TokenText.end k _ _ _) n = absurd (n k)
TokenText-cons (TokenText.unfinished_string w k _ e _) n = absurd (n k)
TokenText-cons (TokenText.unfinished_char w k _ e) n = absurd (n k)
TokenText-cons (TokenText.unknown r k _ e _) n = absurd (n k)

-- A token other than EOF leaves less to read.
pub Tokenizes-shorter :
    {u : Unicode} {l l' : Lexer} {tok : Token}
    → Tokenizes u l tok l'
    → tok.kind ≢ token_eof
    → length l'.rest < length l.rest
Tokenizes-shorter {l = l} {l' = l'} t n =
    let (r, w, e) = TokenText-cons t.token n in
    let (v, skipped) = t.skips.moves in
    omega (
      arith,
      ap (length {0}) skipped.splits,
      length-append {0} v t.from.rest,
      ap (length {0}) t.reads.splits,
      length-append {0} t.text l'.rest,
      ap (length {0}) e,
    )

-- The tokens that repeated calls of `Next` give, up to the first of kind EOF.
pub data Stream (u : Unicode) : Lexer → List Token → Type 0 where
  last :
      {l l' : Lexer} {tok : Token}
      → Tokenizes u l tok l'
      → tok.kind ≡ token_eof
      → Stream u l (tok ∷ [])
  then :
      {l l' : Lexer} {tok : Token} {toks : List Token}
      → Tokenizes u l tok l'
      → tok.kind ≢ token_eof
      → Stream u l' toks
      → Stream u l (tok ∷ toks)

is_eof-true : (kind : TokenKind) → is_eof kind ≡ true → kind ≡ token_eof
is_eof-true token_eof h = refl
is_eof-true _ h = cc

lex_tokens_total :
    (u : Unicode) (fuel : ℕ) (l : Lexer)
    → length l.rest < fuel
    → (toks : List Token) × (lex_tokens u fuel l ≡ some toks) × Stream u l toks
unfolding lex_tokens
lex_tokens_total u zero l h = absurd (omega arith)
lex_tokens_total u (suc fuel) l h = elim (Bool-cases (is_eof (next u l).0.kind)) [
  | inl t ↦ (
    (next u l).0 ∷ [],
    rw (t, lex_tokens),
    last (next-Tokenizes u l) (is_eof-true (next u l).0.kind t),
  )
  | inr f ↦
      let n = is_eof-false (next u l).0.kind f in
      let t = next-Tokenizes u l in
      let (toks, e, s) =
        lex_tokens_total u fuel (next u l).1 (omega (arith, Tokenizes-shorter t n)) in
      ((next u l).0 ∷ toks, rw (f, e, lex_tokens), then t n s)
]

-- `tok` stands in `input` as `text`, between `before` and `after`, and its span gives the line and
-- the column of its two ends.
pub record Located (u : Unicode) (input : Runes) (tok : Token) : Type 0 where
  pub before : Runes
  pub text : Runes
  pub after : Runes
  pub splits : input ≡ before ++ (text ++ after)
  pub token : TokenText u tok.kind tok.lexeme text after
  pub start_is : IsPositionOf before tok.span.start
  pub end_is : IsPositionOf (before ++ text) tok.span.end

Tokenizes-Located :
    {u : Unicode} {input : Runes} {l l' : Lexer} {tok : Token}
    → Tokenizes u l tok l'
    → At input l
    → Located u input tok
Tokenizes-Located {u} {input} {l} {l'} {tok} t a =
    let b = Reads-At t.skips.moves.1 a in
    record {
      before = b.before;
      text = t.text;
      after = l'.rest;
      splits = b.splits ∙ ap (◌++◌ b.before) t.reads.splits;
      token = t.token;
      start_is = subst (λ (s : Span). IsPositionOf b.before s.start) (sym t.spans) b.place;
      end_is =
          subst (λ (s : Span). IsPositionOf (b.before ++ t.text) s.end) (sym t.spans)
            (Reads-IsPositionOf b.before t.reads b.place);
    }

Tokenizes-At :
    {u : Unicode} {input : Runes} {l l' : Lexer} {tok : Token}
    → Tokenizes u l tok l'
    → At input l
    → At input l'
Tokenizes-At t a = Reads-At t.reads (Reads-At t.skips.moves.1 a)

Stream-Located :
    {u : Unicode} {input : Runes} {l : Lexer} {toks : List Token}
    → Stream u l toks
    → At input l
    → All (Located u input) toks
Stream-Located (last t k) a = (Tokenizes-Located t a, tt)
Stream-Located (then t n s) a = (Tokenizes-Located t a, Stream-Located s (Tokenizes-At t a))

-- Lexing ends for every input, since every token but EOF takes a rune. The result is the stream of
-- tokens of repeated calls of `Next`, up to the first of kind EOF, and each token stands in the input
-- where its span says: the lines and columns of both ends are those of the text before them.
pub debug_tokens_total :
    (u : Unicode) (filename : String) (input : Runes)
    → (toks : List Token) × (debug_tokens u filename input ≡ some toks)
      × Stream u (new filename input) toks
      × All (Located u input) toks
unfolding debug_tokens new
debug_tokens_total u filename input =
    let (toks, e, s) = lex_tokens_total u (suc (length input)) (new filename input) (omega arith) in
    (toks, e, s, Stream-Located s (new-At filename input))
