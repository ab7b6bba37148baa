-- ===== src/Source.antt =====
-- Source positions: compiler/stage0/internal/source/source.go.
use dast_lang.Base.{ℕ, String}

pub record Position : Type 0 where
  pub filename : String
  pub line : ℕ
  pub column : ℕ

pub record Span : Type 0 where
  pub start : Position
  pub end : Position

abbrev pub zero_span : Span
zero_span =
    let nowhere : Position = record { filename = ""; line = 0; column = 0 } in
    record { start = nowhere; end = nowhere }
