-- ===== src/Lexer/Moves.antt =====
-- How the cursor moves: each scanning loop of Scan.antt reads a run of runes, and leaves the state
-- that walking over this run gives.
use dast_lang.Base.{
  ℕ, ◌+◌, ◌<◌, length-append, ◌-◌, ◌≡◌, refl, sym, ap, ◌∙◌, Bool, true, false, inl, inr, [], ◌∷◌,
  ◌++◌, append_assoc, Bool-cases, length, take-append, tail, All, Runes, codes, arith,
}
use dast_lang.Lexer.Scan.{skip_while, skip_block}
use dast_lang.Lexer.State.{Lexer, past, skip_rune, peek_ahead, slice}

-- The state behind the runes of `w`.
abbrev pub walk : Runes → Lexer → Lexer
walk [] l = l
walk (c ∷ w) l = walk w (past c (tail l.rest) l)

-- `l` reads `w` and becomes `l'`.
pub record Reads (w : Runes) (l l' : Lexer) : Type 0 where
  pub splits : l.rest ≡ w ++ l'.rest
  pub moved : l' ≡ walk w l

pub Reads-nil : (l : Lexer) → Reads [] l l
Reads-nil l = record { splits = refl; moved = refl }

walk-append : (v w : Runes) (l : Lexer) → walk (v ++ w) l ≡ walk w (walk v l)
walk-append [] w l = refl
walk-append (c ∷ v) w l = walk-append v w (past c (tail l.rest) l)

pub Reads-append :
    {v w : Runes} {l l' l'' : Lexer} → Reads v l l' → Reads w l' l'' → Reads (v ++ w) l l''
Reads-append {v} {w} {l} {l'} {l''} p q = record {
  splits = p.splits ∙ ap (◌++◌ v) q.splits ∙ sym (append_assoc v w l''.rest);
  moved = q.moved ∙ ap (walk w) p.moved ∙ sym (walk-append v w l);
}

pub Reads-rune : (r : ℕ) (cs : Runes) (l : Lexer) → l.rest ≡ r ∷ cs → Reads (r ∷ []) l (skip_rune l)
Reads-rune r cs l e = record { splits = ground arith; moved = ground arith }

pub rest-skip_rune : (r : ℕ) (cs : Runes) (l : Lexer) → l.rest ≡ r ∷ cs → (skip_rune l).rest ≡ cs
rest-skip_rune r cs l e = ground arith

pub Reads-cons :
    (r : ℕ) (cs : Runes) {w : Runes} (l : Lexer) {l' : Lexer}
    → l.rest ≡ r ∷ cs
    → Reads w (skip_rune l) l'
    → Reads (r ∷ w) l l'
Reads-cons r cs l e p = Reads-append (Reads-rune r cs l e) p

idx-walk : (w : Runes) (l : Lexer) → (walk w l).idx ≡ l.idx + length w
idx-walk [] l = omega arith
idx-walk (c ∷ w) l = omega (arith, idx-walk w (past c (tail l.rest) l))

-- `src[l.idx:l'.idx]` is what was read.
pub slice-Reads : {w : Runes} {l l' : Lexer} → Reads w l l' → slice l l' ≡ w
slice-Reads {w} {l} {l'} p =
    let e : l'.idx - l.idx ≡ length w =
      omega (arith, ap (λ (s : Lexer). s.idx) p.moved, idx-walk w l) in
    rw (e, p.splits) (take-append w l'.rest)

-- The unread text is at its end, or starts with a rune that `keep` refuses.
abbrev pub Stops : (ℕ → Bool) → Runes → Type 0
Stops keep [] = Unit
Stops keep (r ∷ _) = keep r ≡ false

-- The longest run of runes that `keep` accepts.
pub record ReadsRun (keep : ℕ → Bool) (l l' : Lexer) : Type 0 where
  pub run : Runes
  pub reads : Reads run l l'
  pub accepted : All (λ r. keep r ≡ true) run
  pub stops : Stops keep l'.rest

pub skip_while-ReadsRun :
    (keep : ℕ → Bool) (cs : Runes) (l : Lexer)
    → l.rest ≡ cs
    → ReadsRun keep l (skip_while keep cs l)
unfolding skip_while
skip_while-ReadsRun keep [] l e = record {
  run = [];
  reads = Reads-nil l;
  accepted = tt;
  stops = rw e tt;
}
skip_while-ReadsRun keep (r ∷ cs) l e = elim (Bool-cases (keep r)) [
  | inl t ↦
      rw (t, skip_while)
        (let more = skip_while-ReadsRun keep cs (skip_rune l) (rest-skip_rune r cs l e) in
          record {
            run = r ∷ more.run;
            reads = Reads-cons r cs l e more.reads;
            accepted = (t, more.accepted);
            stops = more.stops;
          })
  | inr f ↦
      rw (f, skip_while) (record { run = []; reads = Reads-nil l; accepted = tt; stops = rw e f })
]

-- Some run of runes is read.
abbrev pub Moves : Lexer → Lexer → Type 0
Moves l l' = (w : Runes) × Reads w l l'

pub Moves-skip_rune : (l : Lexer) → Moves l (skip_rune l)
Moves-skip_rune l = go l.rest refl
  where
    go : (cs : Runes) → l.rest ≡ cs → Moves l (skip_rune l)
    go [] e = ([], record { splits = ground arith; moved = ground arith })
    go (r ∷ cs) e = (r ∷ [], Reads-rune r cs l e)

pub Moves-trans : {l l' l'' : Lexer} → Moves l l' → Moves l' l'' → Moves l l''
Moves-trans (v, p) (w, q) = (v ++ w, Reads-append p q)

pub skip_while-Moves : (keep : ℕ → Bool) (l : Lexer) → Moves l (skip_while keep l.rest l)
skip_while-Moves keep l = let r = skip_while-ReadsRun keep l.rest l refl in (r.run, r.reads)

pub skip_block-Moves : (cs : Runes) (l : Lexer) → l.rest ≡ cs → Moves l (skip_block cs l)
unfolding skip_block
skip_block-Moves [] l e = ([], Reads-nil l)
skip_block-Moves (r ∷ cs) l e = elim (Bool-cases (peek_ahead (codes "*/") l)) [
  | inl t ↦ rw (t, skip_block) (Moves-trans (Moves-skip_rune l) (Moves-skip_rune (skip_rune l)))
  | inr f ↦
      rw (f, skip_block)
        (Moves-trans (Moves-skip_rune l)
          (skip_block-Moves cs (skip_rune l) (rest-skip_rune r cs l e)))
]

-- At least one rune is read.
abbrev pub Advances : Lexer → Lexer → Type 0
Advances l l' = (r : ℕ) × (w : Runes) × Reads (r ∷ w) l l'

pub Advances-skip_rune :
    (r : ℕ) (cs : Runes) (l : Lexer) {l' : Lexer}
    → l.rest ≡ r ∷ cs
    → Moves (skip_rune l) l'
    → Advances l l'
Advances-skip_rune r cs l e (w, p) = (r, w, Reads-cons r cs l e p)

pub Advances-Moves : {l l' : Lexer} → Advances l l' → Moves l l'
Advances-Moves (r, w, p) = (r ∷ w, p)

pub Advances-shorter : {l l' : Lexer} → Advances l l' → length l'.rest < length l.rest
Advances-shorter {l} {l'} (r, w, p) =
    omega (arith, ap (length {0}) p.splits, length-append {0} (r ∷ w) l'.rest)
