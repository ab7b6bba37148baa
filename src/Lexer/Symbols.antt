-- ===== src/Lexer/Symbols.antt =====
-- The symbols of the switch of `Next`: what is read is the spelling of the kind that is returned.
use mathlib.Core.Path.{subst}
use dast_lang.Base.{
  ◌≢◌, false, ℕ, ◌≡◌, refl, sym, String, true, inl, inr, [], ◌∷◌, ◌++◌, ◌==◌, ==_iff, if◌then◌else◌,
  Bool-cases, Option, none, some, Runes, codes, arith,
}
use dast_lang.Lexer.Grammar.{LongestSymbol}
use dast_lang.Lexer.Moves.{Reads, Reads-append}
use dast_lang.Lexer.Next.{
  Scanned, or_else, or_if, colon_case, dot_case, minus_case, bang_case, assign_case, lt_case,
  gt_case, amp_case, pipe_case, bracket_case, arithmetic_case, comparison_case, symbol_case,
}
use dast_lang.Lexer.State.{Lexer, match}
use dast_lang.Lexer.Token.{TokenKind, kind_string}

-- From `l` the token's lexeme was read, it is the spelling of the token's kind, and
-- no longer symbol goes on.
pub record Spells (l : Lexer) (t : Scanned) : Type 0 where
  pub reads : Reads t.1 l t.2
  pub spelled : codes (kind_string t.0) ≡ t.1
  pub longest : LongestSymbol t.1 t.2.rest

abbrev pub SpellsAny : Lexer → Option Scanned → Type 0
SpellsAny l none = Unit
SpellsAny l (some t) = Spells l t

match-Reads : (c : ℕ) (l : Lexer) → (match c l).0 ≡ true → Reads (c ∷ []) l (match c l).1
match-Reads c l h = go l.rest refl
  where
    go : (cs : Runes) → l.rest ≡ cs → Reads (c ∷ []) l (match c l).1
    go [] e = absurd (ground arith)
    go (r ∷ cs) e = record { splits = ground arith; moved = ground arith }

match-missed : (c : ℕ) (l : Lexer) → (match c l).0 ≡ false → (t : Runes) → l.rest ≢ c ∷ t
match-missed c l h t e = ground arith

-- A second rune: `text` is the runes `p` read so far and `c`.
or_if-Spells :
    (l0 : Lexer) (p : Runes) (c : ℕ) (hit : TokenKind) (text : String) (l : Lexer) (miss : Scanned)
    → Reads p l0 l
    → codes text ≡ p ++ c ∷ []
    → codes (kind_string hit) ≡ codes text
    → LongestSymbol (codes text) (match c l).1.rest
    → (((t : Runes) → l.rest ≢ c ∷ t) → Spells l0 miss)
    → Spells l0 (or_if c hit text l miss)
or_if-Spells l0 p c hit text l miss q e k z m = elim (Bool-cases (match c l).0) [
  | inl h ↦ rw h (record {
    reads = subst (λ w. Reads w l0 (match c l).1) (sym e) (Reads-append q (match-Reads c l h));
    spelled = k;
    longest = z;
  })
  | inr h ↦ rw h (m (match-missed c l h))
]

one-Spells :
    {l0 l : Lexer} {r : ℕ} (c : ℕ) (kind : TokenKind) (text : String)
    → Reads (r ∷ []) l0 l
    → codes text ≡ c ∷ []
    → codes (kind_string kind) ≡ codes text
    → LongestSymbol (codes text) l.rest
    → r ≡ c
    → Spells l0 (kind, codes text, l)
one-Spells {l0} {l} c kind text p e k z h = record {
  reads = subst (λ w. Reads w l0 l) (cc) p;
  spelled = k;
  longest = z;
}

if-SpellsAny :
    (l0 : Lexer) (r c : ℕ) (x y : Option Scanned)
    → (r ≡ c → SpellsAny l0 x)
    → SpellsAny l0 y
    → SpellsAny l0 (if r == c then x else y)
if-SpellsAny l0 r c x y f g = elim (Bool-cases (r == c)) [
  | inl t ↦ rw t (f ((==_iff r c).0 t))
  | inr n ↦ rw n g
]

module _ (l0 l : Lexer) (r : ℕ) (p : Reads (r ∷ []) l0 l) where
  as_rune : (c : ℕ) → r ≡ c → Reads (c ∷ []) l0 l
  as_rune c h = subst (λ (k : ℕ). Reads (k ∷ []) l0 l) h p

  colon_case-Spells : r ≡ b':' → Spells l0 (colon_case l)
  unfolding colon_case kind_string
  colon_case-Spells h =
      or_if-Spells l0 (b':' ∷ []) b':' _ "::" l _ (as_rune b':' h) refl refl tt
        (λ n. one-Spells b':' _ ":" p refl refl (n, tt) h)

  dot_case-Spells : r ≡ b'.' → Spells l0 (dot_case l)
  unfolding dot_case kind_string
  dot_case-Spells h = elim (Bool-cases (match b'.' l).0) [
    | inl t ↦ rw t (
        let q = Reads-append (as_rune b'.' h) (match-Reads b'.' l t) in
        or_if-Spells l0 (b'.' ∷ b'.' ∷ []) b'=' _ "..=" (match b'.' l).1 _ q refl refl tt
          (λ n. record { reads = q; spelled = refl; longest = (n, tt) }))
    | inr f ↦
        rw f (let n = match-missed b'.' l f in one-Spells b'.' _ "." p refl refl (n, (n, tt)) h)
  ]

  minus_case-Spells : r ≡ b'-' → Spells l0 (minus_case l)
  unfolding minus_case kind_string
  minus_case-Spells h =
      or_if-Spells l0 (b'-' ∷ []) b'>' _ "->" l _ (as_rune b'-' h) refl refl tt
        (λ n. one-Spells b'-' _ "-" p refl refl (n, tt) h)

  bang_case-Spells : r ≡ b'!' → Spells l0 (bang_case l)
  unfolding bang_case kind_string
  bang_case-Spells h =
      or_if-Spells l0 (b'!' ∷ []) b'=' _ "!=" l _ (as_rune b'!' h) refl refl tt
        (λ n. one-Spells b'!' _ "!" p refl refl (n, tt) h)

  assign_case-Spells : r ≡ b'=' → Spells l0 (assign_case l)
  unfolding assign_case kind_string
  assign_case-Spells h =
      or_if-Spells l0 (b'=' ∷ []) b'=' _ "==" l _ (as_rune b'=' h) refl refl tt (λ n.
        or_if-Spells l0 (b'=' ∷ []) b'>' _ "=>" l _ (as_rune b'=' h) refl refl tt
          (λ m. one-Spells b'=' _ "=" p refl refl (n, (m, tt)) h))

  lt_case-Spells : r ≡ b'<' → Spells l0 (lt_case l)
  unfolding lt_case kind_string
  lt_case-Spells h = or_if-Spells l0 (b'<' ∷ []) b'<' _ "<<" l _ (as_rune b'<' h) refl refl tt (λ n.
      or_if-Spells l0 (b'<' ∷ []) b'=' _ "<=" l _ (as_rune b'<' h) refl refl tt
        (λ m. one-Spells b'<' _ "<" p refl refl (m, (n, tt)) h))

  gt_case-Spells : r ≡ b'>' → Spells l0 (gt_case l)
  unfolding gt_case kind_string
  gt_case-Spells h = or_if-Spells l0 (b'>' ∷ []) b'>' _ ">>" l _ (as_rune b'>' h) refl refl tt (λ n.
      or_if-Spells l0 (b'>' ∷ []) b'=' _ ">=" l _ (as_rune b'>' h) refl refl tt
        (λ m. one-Spells b'>' _ ">" p refl refl (m, (n, tt)) h))

  amp_case-Spells : r ≡ b'&' → Spells l0 (amp_case l)
  unfolding amp_case kind_string
  amp_case-Spells h =
      or_if-Spells l0 (b'&' ∷ []) b'&' _ "&&" l _ (as_rune b'&' h) refl refl tt
        (λ n. one-Spells b'&' _ "&" p refl refl (n, tt) h)

  pipe_case-Spells : r ≡ b'|' → Spells l0 (pipe_case l)
  unfolding pipe_case kind_string
  pipe_case-Spells h =
      or_if-Spells l0 (b'|' ∷ []) b'|' _ "||" l _ (as_rune b'|' h) refl refl tt
        (λ n. one-Spells b'|' _ "|" p refl refl (n, tt) h)

  bracket_case-SpellsAny : SpellsAny l0 (bracket_case r l)
  unfolding bracket_case kind_string
  bracket_case-SpellsAny = if-SpellsAny l0 r b'(' _ _ (one-Spells b'(' _ "(" p refl refl tt) (
      if-SpellsAny l0 r b')' _ _ (one-Spells b')' _ ")" p refl refl tt) (
        if-SpellsAny l0 r b'{' _ _ (one-Spells b'{' _ "{" p refl refl tt) (
          if-SpellsAny l0 r b'}' _ _ (one-Spells b'}' _ "}" p refl refl tt) (
            if-SpellsAny l0 r b'$' _ _ (one-Spells b'$' _ "$" p refl refl tt) (
              if-SpellsAny l0 r b'[' _ _ (one-Spells b'[' _ "[" p refl refl tt) (
                if-SpellsAny l0 r b']' _ _ (one-Spells b']' _ "]" p refl refl tt) (
                  if-SpellsAny l0 r b',' _ _ (one-Spells b',' _ "," p refl refl tt) (
                    if-SpellsAny l0 r b':' _ _ colon_case-Spells
                      (if-SpellsAny l0 r b';' _ _ (one-Spells b';' _ ";" p refl refl tt) tt)))))))))

  arithmetic_case-SpellsAny : SpellsAny l0 (arithmetic_case r l)
  unfolding arithmetic_case kind_string
  arithmetic_case-SpellsAny = if-SpellsAny l0 r b'.' _ _ dot_case-Spells (
      if-SpellsAny l0 r b'@' _ _ (one-Spells b'@' _ "@" p refl refl tt) (
        if-SpellsAny l0 r b'+' _ _ (one-Spells b'+' _ "+" p refl refl tt) (
          if-SpellsAny l0 r b'-' _ _ minus_case-Spells (
            if-SpellsAny l0 r b'*' _ _ (one-Spells b'*' _ "*" p refl refl tt) (
              if-SpellsAny l0 r b'/' _ _ (one-Spells b'/' _ "/" p refl refl tt)
                (if-SpellsAny l0 r b'%' _ _ (one-Spells b'%' _ "%" p refl refl tt) tt))))))

  comparison_case-SpellsAny : SpellsAny l0 (comparison_case r l)
  unfolding comparison_case kind_string
  comparison_case-SpellsAny = if-SpellsAny l0 r b'!' _ _ bang_case-Spells (
      if-SpellsAny l0 r b'=' _ _ assign_case-Spells (
        if-SpellsAny l0 r b'<' _ _ lt_case-Spells (
          if-SpellsAny l0 r b'>' _ _ gt_case-Spells (
            if-SpellsAny l0 r b'&' _ _ amp_case-Spells (
              if-SpellsAny l0 r b'|' _ _ pipe_case-Spells
                (if-SpellsAny l0 r b'^' _ _ (one-Spells b'^' _ "^" p refl refl tt) tt))))))

or_else-SpellsAny :
    (l : Lexer) (s t : Option Scanned) → SpellsAny l s → SpellsAny l t → SpellsAny l (or_else s t)
or_else-SpellsAny l none t p q = q
or_else-SpellsAny l (some x) t p q = p

-- Every symbol that the switch returns spells the runes that it read.
pub symbol_case-SpellsAny :
    (l0 l : Lexer) (r : ℕ) → Reads (r ∷ []) l0 l → SpellsAny l0 (symbol_case r l)
unfolding symbol_case
symbol_case-SpellsAny l0 l r p =
    or_else-SpellsAny l0 (bracket_case r l) _ (bracket_case-SpellsAny l0 l r p) (
      or_else-SpellsAny l0 (arithmetic_case r l) _ (arithmetic_case-SpellsAny l0 l r p)
        (comparison_case-SpellsAny l0 l r p))
