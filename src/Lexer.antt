-- ===== src/Lexer.antt =====
-- The lexer of compiler/stage0/internal/lexer.
pub mod Token
pub mod Chars
pub mod State
pub mod Scan
pub mod Next
pub mod Moves
pub mod Blanks
pub mod Symbols
pub mod Literals
pub mod Grammar
pub mod Unknown
pub mod Tokens
pub mod Positions
pub mod Stream
pub mod Spelled
pub mod Examples
