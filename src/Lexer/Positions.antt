-- ===== src/Lexer/Positions.antt =====
-- The positions that the lexer counts are those of the source text.
use dast_lang.Base.{
  append-nil, ℕ, ◌+◌, ◌≡◌, refl, sym, ◌∙◌, ap, true, false, ◌⊎◌, inl, inr, [], ◌∷◌, ◌++◌,
  append_assoc, ◌==◌, ==_iff, if◌then◌else◌, Bool-cases, length, length-append, tail, All, Runes,
  String, arith,
}
use mathlib.Core.Path.{subst}
use dast_lang.Lexer.Moves.{Reads, walk}
use dast_lang.Lexer.Scan.{not_newline}
use dast_lang.Lexer.State.{Lexer, new, past, position}
use dast_lang.Source.{Position}

abbrev pub newlines : Runes → ℕ
newlines [] = 0
newlines (c ∷ cs) = (if c == b'\n' then 1 else 0) + newlines cs

abbrev pub NoNewline : Runes → Type 0
NoNewline = All (λ c. not_newline c ≡ true)

-- `line` is the last line of the text `before`: all behind its last newline.
abbrev pub IsLastLine : Runes → Runes → Type 0
IsLastLine before line =
    NoNewline line × ((before ≡ line) ⊎ ((earlier : Runes) × (before ≡ earlier ++ b'\n' ∷ line)))

-- `p` is the line and the column, from 1, of the place behind the text `before`.
pub record IsPositionOf (before : Runes) (p : Position) : Type 0 where
  pub last_line : Runes
  pub is_last : IsLastLine before last_line
  pub line_is : p.line ≡ 1 + newlines before
  pub column_is : p.column ≡ 1 + length last_line

-- `l` stands in `input` behind the text `before`, and counts so.
pub record At (input : Runes) (l : Lexer) : Type 0 where
  pub before : Runes
  pub splits : input ≡ before ++ l.rest
  pub idx_is : l.idx ≡ length before
  pub place : IsPositionOf before (position l)

pub new-At : (filename : String) (input : Runes) → At input (new filename input)
unfolding new
new-At filename input = record {
  before = [];
  splits = refl;
  idx_is = refl;
  place = record { last_line = []; is_last = (tt, inl refl); line_is = refl; column_is = refl };
}

newlines-concat :
    (w : Runes) (c : ℕ) → newlines (w ++ c ∷ []) ≡ newlines w + (if c == b'\n' then 1 else 0)
newlines-concat [] c = omega arith
newlines-concat (d ∷ w) c = omega (arith, newlines-concat w c)

NoNewline-concat :
    (w : Runes) (c : ℕ) → NoNewline w → (c == b'\n') ≡ false → NoNewline (w ++ c ∷ [])
NoNewline-concat [] c h n = (rw n, tt)
NoNewline-concat (d ∷ w) c h n = (h.0, NoNewline-concat w c h.1 n)

-- Behind a newline a new line starts; behind another rune the line is longer.
past-IsPositionOf :
    (before : Runes) (r : ℕ) (cs : Runes) (l : Lexer)
    → IsPositionOf before (position l)
    → IsPositionOf (before ++ r ∷ []) (position (past r cs l))
past-IsPositionOf before r cs l p = elim (Bool-cases (r == b'\n')) [
  | inl t ↦ record {
    last_line = [];
    is_last = (tt, inr (before, ap (λ k. before ++ k ∷ []) ((==_iff r b'\n').0 t)));
    line_is = ground (arith, newlines-concat before r, p.line_is);
    column_is = ground arith;
  }
  | inr n ↦ record {
    last_line = p.last_line ++ r ∷ [];
    is_last = (NoNewline-concat p.last_line r p.is_last.0 n, longer p.is_last.1);
    line_is = ground (arith, newlines-concat before r, p.line_is);
    column_is = ground (arith, length-append p.last_line (r ∷ []), p.column_is);
  }
]
  where
    Ends : Runes → Runes → Type 0
    Ends b w = (b ≡ w) ⊎ ((earlier : Runes) × (b ≡ earlier ++ b'\n' ∷ w))

    longer : Ends before p.last_line → Ends (before ++ r ∷ []) (p.last_line ++ r ∷ [])
    longer (inl e) = inl (ap (λ b. b ++ r ∷ []) e)
    longer (inr (b, e)) =
        inr (b, ap (λ b. b ++ r ∷ []) e ∙ append_assoc b (b'\n' ∷ p.last_line) (r ∷ []))

past-At :
    (input : Runes) (r : ℕ) (cs : Runes) (l : Lexer)
    → l.rest ≡ r ∷ cs
    → At input l
    → At input (past r cs l)
past-At input r cs l e a = record {
  before = a.before ++ r ∷ [];
  splits = a.splits ∙ ap (◌++◌ a.before) e ∙ sym (append_assoc a.before (r ∷ []) cs);
  idx_is = ground (arith, length-append a.before (r ∷ []), a.idx_is);
  place = past-IsPositionOf a.before r cs l a.place;
}

walk-At : (input w t : Runes) (l : Lexer) → l.rest ≡ w ++ t → At input l → At input (walk w l)
walk-At input [] t l e a = a
walk-At input (c ∷ w) t l e a =
    let e' : l.rest ≡ c ∷ tail l.rest = e ∙ ap (λ (s : Runes). c ∷ s) (sym (ap tail e)) in
    walk-At input w t (past c (tail l.rest) l) (ap tail e) (past-At input c (tail l.rest) l e' a)

-- Reading keeps the place in step.
pub Reads-At : {input w : Runes} {l l' : Lexer} → Reads w l l' → At input l → At input l'
Reads-At {input} {w} {l} {l'} p a =
    subst (At input) (sym p.moved) (walk-At input w l'.rest l p.splits a)

walk-IsPositionOf :
    (before w : Runes) (l : Lexer)
    → IsPositionOf before (position l)
    → IsPositionOf (before ++ w) (position (walk w l))
walk-IsPositionOf before [] l p = rw append-nil p
walk-IsPositionOf before (c ∷ w) l p =
    subst (λ b. IsPositionOf b (position (walk w (past c (tail l.rest) l))))
      (append_assoc before (c ∷ []) w)
      (walk-IsPositionOf (before ++ c ∷ []) w (past c (tail l.rest) l)
        (past-IsPositionOf before c (tail l.rest) l p))

pub Reads-IsPositionOf :
    (before : Runes) {w : Runes} {l l' : Lexer}
    → Reads w l l'
    → IsPositionOf before (position l)
    → IsPositionOf (before ++ w) (position l')
Reads-IsPositionOf before {w} {l} {l'} r p =
    subst (λ m. IsPositionOf (before ++ w) (position m)) (sym r.moved)
      (walk-IsPositionOf before w l p)
