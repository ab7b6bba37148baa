-- ===== src/Base/Text.antt =====
-- Go's `rune` as a number and a text as the list of its runes.
use Prim.Native.Nat.{ℕ}
use Prim.Native.Char.{code}
use Prim.Native.String.{String}
use mathlib.Core.Path.{◌≡◌}
use mathlib.Core.Logic.{◌↔◌}
use mathlib.Core.Bool.{Bool, true, false, ◌&&◌}
use mathlib.Core.List.{List, [], ◌∷◌}
use native.Mathlib.Omega.{arith}
use dast_lang.Base.Tests.{◌==◌}

abbrev pub Runes : Type 0
Runes = List ℕ

-- `[]rune(s)` of a literal.
abbrev pub codes : String → Runes
codes String.[] = []
codes (String.◌∷◌ c s) = code c ∷ codes s

-- Go's `==` on two texts.
unfoldable pub runes_eq : Runes → Runes → Bool
runes_eq [] [] = true
runes_eq (x ∷ xs) (y ∷ ys) = x == y && runes_eq xs ys
runes_eq _ _ = false

pub runes_eq_iff : (a b : Runes) → (runes_eq a b ≡ true) ↔ (a ≡ b)
unfolding runes_eq
runes_eq_iff (x ∷ a) (y ∷ b) = ground (arith, runes_eq_iff a b)
runes_eq_iff _ _ = ground arith
