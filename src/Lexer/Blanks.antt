-- ===== src/Lexer/Blanks.antt =====
-- What `skipWhitespaceAndComments` skips, against a grammar of blanks.
use dast_lang.Base.{
  ℕ, zero, suc, ◌<◌, ◌≡◌, refl, sym, ◌∙◌, ap, true, false, ◌&&◌, inl, inr, [], ◌∷◌, ◌++◌, ◌==◌,
  Bool-cases, Option-cases, none, some, length, All, Runes, codes, arith,
}
use mathlib.Core.Path.{subst, subst₂}
use mathlib.Core.Option.{some-injective}
use dast_lang.Lexer.Chars.{Unicode, is_space}
use dast_lang.Lexer.Moves.{
  Stops, skip_while-ReadsRun, Moves, Moves-skip_rune, Moves-trans, skip_block-Moves, Advances,
  Advances-skip_rune, Advances-Moves, Advances-shorter, Reads-nil, rest-skip_rune,
}
use dast_lang.Lexer.Scan.{
  not_newline, skip_block, skip_line_comment, skip_block_comment, skip_step, skip_rounds,
  skip_whitespace_and_comments,
}
use dast_lang.Lexer.State.{Lexer, skip_rune, has_prefix, peek_ahead}

-- A block comment's body, from the text behind `/*` to the text behind the comment: up to the first
-- `*/`, or up to the end of the input.
pub data BlockEnd : Runes → Runes → Type 0 where
  unclosed : {t : Runes} → t ≡ [] → BlockEnd t []
  closed : {t t' : Runes} → t ≡ b'*' ∷ b'/' ∷ t' → BlockEnd t t'
  inside :
      {t t' : Runes} (r : ℕ)
      → has_prefix (codes "*/") (r ∷ t) ≡ false
      → BlockEnd t t'
      → BlockEnd (r ∷ t) t'

-- One blank in front of a text: a space, `//` up to the end of the line, or a block comment.
pub data Blank (u : Unicode) : Runes → Runes → Type 0 where
  space : {t : Runes} (r : ℕ) → is_space u r ≡ true → Blank u (r ∷ t) t
  line_comment :
      {s t : Runes} (body : Runes)
      → s ≡ b'/' ∷ b'/' ∷ body ++ t
      → All (λ r. not_newline r ≡ true) body
      → Stops not_newline t
      → Blank u s t
  block_comment :
      {s t : Runes} (body : Runes) → s ≡ b'/' ∷ b'*' ∷ body → BlockEnd body t → Blank u s t

-- No blank stands in front: the text is at its end, or at a rune that is neither a space nor the
-- start of a comment.
abbrev pub AtToken : Unicode → Runes → Type 0
AtToken u [] = Unit
AtToken u (r ∷ t) =
    (is_space u r ≡ false)
    × (has_prefix (codes "//") (r ∷ t) ≡ false)
    × (has_prefix (codes "/*") (r ∷ t) ≡ false)

pub data Blanks (u : Unicode) : Runes → Runes → Type 0 where
  done : {t : Runes} → AtToken u t → Blanks u t t
  more : {s t t' : Runes} → Blank u s t → Blanks u t t' → Blanks u s t'

has_prefix-two :
    (a b : ℕ) (cs : Runes) → has_prefix (a ∷ b ∷ []) cs ≡ true → (t : Runes) × (cs ≡ a ∷ b ∷ t)
has_prefix-two a b [] h = cc
has_prefix-two a b (r ∷ []) h = absurd (ground arith)
has_prefix-two a b (r ∷ s ∷ t) h = (t, ground arith)

-- Behind two runes.
rest-skip_two :
    (a b : ℕ) (t : Runes) (l : Lexer) → l.rest ≡ a ∷ b ∷ t → (skip_rune (skip_rune l)).rest ≡ t
rest-skip_two a b t l e = rest-skip_rune b t (skip_rune l) (rest-skip_rune a (b ∷ t) l e)

skip_block-BlockEnd : (cs : Runes) (l : Lexer) → l.rest ≡ cs → BlockEnd cs (skip_block cs l).rest
unfolding skip_block
skip_block-BlockEnd [] l e = rw e (unclosed refl)
skip_block-BlockEnd (r ∷ cs) l e = elim (Bool-cases (peek_ahead (codes "*/") l)) [
  | inl t ↦
      rw (t, skip_block)
        (let (v, q) = has_prefix-two b'*' b'/' l.rest t in
          rw (← e) (closed (rw (rest-skip_two b'*' b'/' v l q) q)))
  | inr f ↦
      rw (f, skip_block)
        (inside r (rw e at f) (skip_block-BlockEnd cs (skip_rune l) (rest-skip_rune r cs l e)))
]

record Skips (u : Unicode) (l l' : Lexer) : Type 0 where
  blank : Blank u l.rest l'.rest
  advances : Advances l l'

skip_line_comment-Skips :
    (u : Unicode) (l : Lexer) → peek_ahead (codes "//") l ≡ true → Skips u l (skip_line_comment l)
unfolding skip_line_comment
skip_line_comment-Skips u l h =
    let (t, e) = has_prefix-two b'/' b'/' l.rest h in
    let body = skip_rune (skip_rune l) in
    let r = skip_while-ReadsRun not_newline body.rest body refl in
    record {
      blank =
          line_comment r.run
            (e
              ∙ ap (λ (s : Runes). b'/' ∷ b'/' ∷ s)
                  (sym (rest-skip_two b'/' b'/' t l e) ∙ r.reads.splits))
            r.accepted r.stops;
      advances =
          Advances-skip_rune b'/' (b'/' ∷ t) l e
            (Moves-trans (Moves-skip_rune (skip_rune l)) (r.run, r.reads));
    }

skip_block_comment-Skips :
    (u : Unicode) (l : Lexer) → peek_ahead (codes "/*") l ≡ true → Skips u l (skip_block_comment l)
unfolding skip_block_comment
skip_block_comment-Skips u l h =
    let (t, e) = has_prefix-two b'/' b'*' l.rest h in
    let body = skip_rune (skip_rune l) in
    record {
      blank =
          block_comment body.rest
            (e ∙ ap (λ (s : Runes). b'/' ∷ b'*' ∷ s) (sym (rest-skip_two b'/' b'*' t l e)))
            (skip_block-BlockEnd body.rest body refl);
      advances =
          Advances-skip_rune b'/' (b'*' ∷ t) l e
            (Moves-trans (Moves-skip_rune (skip_rune l)) (skip_block-Moves body.rest body refl));
    }

space-Skips :
    (u : Unicode) (r : ℕ) (cs : Runes) (l : Lexer)
    → l.rest ≡ r ∷ cs
    → is_space u r ≡ true
    → Skips u l (skip_rune l)
space-Skips u r cs l e h = record {
  blank = subst₂ (λ s t. Blank u s t) (sym e) (sym (rest-skip_rune r cs l e)) (space r h);
  advances = Advances-skip_rune r cs l e ([], Reads-nil (skip_rune l));
}

-- A round of the loop skips one blank, or stands at a token.
skip_step-some :
    (u : Unicode) (cs : Runes) (l l' : Lexer)
    → l.rest ≡ cs
    → skip_step u cs l ≡ some l'
    → Skips u l l'
unfolding skip_step
skip_step-some u [] l l' e h = cc
skip_step-some u (r ∷ cs) l l' e h = elim (Bool-cases (is_space u r)) [
  | inl s ↦ subst (Skips u l) (some-injective _ _ (rw s at h)) (space-Skips u r cs l e s)
  | inr n ↦ elim (Bool-cases (r == b'/' && peek_ahead (codes "//") l)) [
    | inl s ↦
        subst (Skips u l) (some-injective _ _ (rw (n, s) at h))
          (skip_line_comment-Skips u l (ground arith))
    | inr m ↦ elim (Bool-cases (r == b'/' && peek_ahead (codes "/*") l)) [
      | inl s ↦
          subst (Skips u l) (some-injective _ _ (rw (n, m, s) at h))
            (skip_block_comment-Skips u l (ground arith))
      | inr k ↦ absurd (ground arith)
    ]
  ]
]

skip_step-none :
    (u : Unicode) (cs : Runes) (l : Lexer) → l.rest ≡ cs → skip_step u cs l ≡ none → AtToken u cs
unfolding skip_step
skip_step-none u [] l e h = tt
skip_step-none u (r ∷ cs) l e h = ground arith

pub record SkipsAll (u : Unicode) (l l' : Lexer) : Type 0 where
  pub blanks : Blanks u l.rest l'.rest
  pub moves : Moves l l'
  pub at_token : AtToken u l'.rest

skip_rounds-SkipsAll :
    (u : Unicode) (fuel : ℕ) (l : Lexer)
    → length l.rest < fuel
    → SkipsAll u l (skip_rounds u fuel l)
unfolding skip_rounds
skip_rounds-SkipsAll u zero l h = absurd (omega arith)
skip_rounds-SkipsAll u (suc fuel) l h = elim (Option-cases (skip_step u l.rest l)) [
  | inl n ↦
      rw (n, skip_rounds)
        (let t = skip_step-none u l.rest l refl n in
          record { blanks = done t; moves = ([], Reads-nil l); at_token = t })
  | inr (l', s) ↦
      rw (s, skip_rounds)
        (let one = skip_step-some u l.rest l l' refl s in
          let rest =
            skip_rounds-SkipsAll u fuel l' (omega (arith, Advances-shorter one.advances)) in
          record {
            blanks = more one.blank rest.blanks;
            moves = Moves-trans (Advances-Moves one.advances) rest.moves;
            at_token = rest.at_token;
          })
]

-- The fuel is enough: the runes skipped are blanks by the grammar, and no blank is left in front.
pub skip_whitespace_and_comments-SkipsAll :
    (u : Unicode) (l : Lexer) → SkipsAll u l (skip_whitespace_and_comments u l)
unfolding skip_whitespace_and_comments
skip_whitespace_and_comments-SkipsAll u l =
    skip_rounds-SkipsAll u (suc (length l.rest)) l (omega arith)
