-- ===== src/Lexer/Unknown.antt =====
-- The runes that the switch of `Next` of compiler/stage0/internal/lexer/lexer.go has no case for.

use dast_lang.Lexer.Token.{kind_string}
use dast_lang.Lexer.Grammar.{first_of, symbol_kinds}
use dast_lang.Base.{
  ◌==◌, if◌then◌else◌, Bool-cases, arith, codes, ℕ, ◌≡◌, ◌≢◌, refl, inl, inr, Option, none, some,
  All,
}
use dast_lang.Lexer.Next.{
  or_else, bracket_case, arithmetic_case, comparison_case, symbol_case, Scanned,
}
use dast_lang.Lexer.State.{Lexer}

-- A switch that gives nothing on `r` has no case of `r`.
case_missed :
    (r c : ℕ) (t : Scanned) (s : Option Scanned)
    → (if r == c then some t else s) ≡ none
    → (r ≢ c) × (s ≡ none)
case_missed r c t s e = elim (Bool-cases (r == c)) [
  | inl same ↦ absurd (ground arith)
  | inr other ↦ (ground arith, ground arith)
]

or_else-parts : (s t : Option Scanned) → or_else s t ≡ none → (s ≡ none) × (t ≡ none)
or_else-parts none t e = (refl, e)
or_else-parts (some x) t e = absurd (ground arith)

module _ (r : ℕ) (l : Lexer) where
  no_bracket : bracket_case r l ≡ none → All (λ c. r ≢ c) (codes "(){}$[],:;")
  unfolding bracket_case
  no_bracket e =
      let (p0, e0) = case_missed r _ _ _ e in
      let (p1, e1) = case_missed r _ _ _ e0 in
      let (p2, e2) = case_missed r _ _ _ e1 in
      let (p3, e3) = case_missed r _ _ _ e2 in
      let (p4, e4) = case_missed r _ _ _ e3 in
      let (p5, e5) = case_missed r _ _ _ e4 in
      let (p6, e6) = case_missed r _ _ _ e5 in
      let (p7, e7) = case_missed r _ _ _ e6 in
      let (p8, e8) = case_missed r _ _ _ e7 in
      let (p9, e9) = case_missed r _ _ _ e8 in
      (p0, (p1, (p2, (p3, (p4, (p5, (p6, (p7, (p8, (p9, tt))))))))))

  no_arithmetic : arithmetic_case r l ≡ none → All (λ c. r ≢ c) (codes ".@+-*/%")
  unfolding arithmetic_case
  no_arithmetic e =
      let (p0, e0) = case_missed r _ _ _ e in
      let (p1, e1) = case_missed r _ _ _ e0 in
      let (p2, e2) = case_missed r _ _ _ e1 in
      let (p3, e3) = case_missed r _ _ _ e2 in
      let (p4, e4) = case_missed r _ _ _ e3 in
      let (p5, e5) = case_missed r _ _ _ e4 in
      let (p6, e6) = case_missed r _ _ _ e5 in (p0, (p1, (p2, (p3, (p4, (p5, (p6, tt)))))))

  no_comparison : comparison_case r l ≡ none → All (λ c. r ≢ c) (codes "!=<>&|^")
  unfolding comparison_case
  no_comparison e =
      let (p0, e0) = case_missed r _ _ _ e in
      let (p1, e1) = case_missed r _ _ _ e0 in
      let (p2, e2) = case_missed r _ _ _ e1 in
      let (p3, e3) = case_missed r _ _ _ e2 in
      let (p4, e4) = case_missed r _ _ _ e3 in
      let (p5, e5) = case_missed r _ _ _ e4 in
      let (p6, e6) = case_missed r _ _ _ e5 in (p0, (p1, (p2, (p3, (p4, (p5, (p6, tt)))))))

  -- On a rune for which the switch has no case, no symbol starts.
  pub no_symbol : symbol_case r l ≡ none → All (λ kind. r ≢ first_of kind) symbol_kinds
  unfolding symbol_case kind_string
  no_symbol e =
      let (b, rest) = or_else-parts (bracket_case r l) _ e in
      let (a, c) = or_else-parts (arithmetic_case r l) _ rest in
      let (b0, (b1, (b2, (b3, (b4, (b5, (b6, (b7, (b8, (b9, _)))))))))) = no_bracket b in
      let (a0, (a1, (a2, (a3, (a4, (a5, (a6, _))))))) = no_arithmetic a in
      let (c0, (c1, (c2, (c3, (c4, (c5, (c6, _))))))) = no_comparison c in
      (
        b0,
        (
          b1,
          (
            b2,
            (
              b3,
              (
                b4,
                (
                  b5,
                  (
                    b6,
                    (
                      b7,
                      (
                        b8,
                        (
                          b8,
                          (
                            b9,
                            (
                              a0,
                              (
                                a0,
                                (
                                  a0,
                                  (
                                    a1,
                                    (
                                      a2,
                                      (
                                        a3,
                                        (
                                          a3,
                                          (
                                            a4,
                                            (
                                              a5,
                                              (
                                                a6,
                                                (
                                                  c0,
                                                  (
                                                    c0,
                                                    (
                                                      c1,
                                                      (
                                                        c1,
                                                        (
                                                          c1,
                                                          (
                                                            c2,
                                                            (
                                                            c2,
                                                            (
                                                            c2,
                                                            (
                                                            c3,
                                                            (
                                                            c3,
                                                            (c3, (c4, (c4, (c5, (c5, (c6, tt)))))),
                                                            ),
                                                            ),
                                                            ),
                                                            ),
                                                          ),
                                                        ),
                                                      ),
                                                    ),
                                                  ),
                                                ),
                                              ),
                                            ),
                                          ),
                                        ),
                                      ),
                                    ),
                                  ),
                                ),
                              ),
                            ),
                          ),
                        ),
                      ),
                    ),
                  ),
                ),
              ),
            ),
          ),
        ),
      )
