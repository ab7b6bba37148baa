-- ===== src/Ast/Values.antt =====
-- The constants of compiler/stage0/internal/ast/decl.go and the kinds of quotations of expr.go; spans
-- are left out.
use dast_lang.Base.{ℕ, String, Bool, Runes}

-- `ConstValue`, of which `Kind` tells the field that counts. Integers are 64-bit patterns.
pub data ConstValue : Type 0 where
  const_int : ℕ → ConstValue
  const_bool : Bool → ConstValue
  const_string : Runes → ConstValue
  const_char : ℕ → ConstValue
  const_float : String → ConstValue

pub data QuoteKind : Type 0 where
  quote_expr_kind quote_stmt_kind quote_item_kind quote_block_kind : QuoteKind
