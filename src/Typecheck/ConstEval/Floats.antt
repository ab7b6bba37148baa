-- ===== src/Typecheck/ConstEval/Floats.antt =====
-- Go's `float64` and package strconv, as compiler/stage0/internal/typecheck/const_eval.go uses them:
-- not code of the repository, and so a parameter.
use dast_lang.Base.{ℕ, String, Bool, Option}

pub record Floats : Type 1 where
  pub Float : Type 0
  pub parse_float : String → Option Float
  pub format_float : Float → String
  pub of_int : ℕ → Float
  pub is_zero : Float → Bool
  pub neg : Float → Float
  pub add : Float → Float → Float
  pub sub : Float → Float → Float
  pub mul : Float → Float → Float
  pub div : Float → Float → Float
  pub eq : Float → Float → Bool
  pub lt : Float → Float → Bool
  pub le : Float → Float → Bool
