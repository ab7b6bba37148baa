-- ===== src/Lexer/Token.antt =====
-- Token kinds and tokens: compiler/stage0/internal/lexer/token.go, and `lookupKeyword` of lexer.go.
use dast_lang.Base.{String, List, [], ◌∷◌, Runes, codes, runes_eq, if◌then◌else◌}
use dast_lang.Source.{Span}

pub data TokenKind : Type 0 where
  token_eof token_ident token_int token_float token_string token_char token_fn : TokenKind
  token_struct token_enum token_impl token_trait token_self token_self_type : TokenKind
  token_const token_type token_pub token_macro token_quote token_import token_as : TokenKind
  token_in token_where token_let token_mut token_if token_else token_while : TokenKind
  token_loop token_for token_break token_continue token_match token_return : TokenKind
  token_true token_false token_lparen token_rparen token_lbrace token_rbrace : TokenKind
  token_lbracket token_rbracket token_comma token_colon token_semicolon : TokenKind
  token_arrow token_fat_arrow token_dot token_colon_colon token_dot_dot : TokenKind
  token_dot_dot_eq token_at token_dollar token_assign token_plus token_minus : TokenKind
  token_star token_slash token_percent token_bang token_amp token_pipe : TokenKind
  token_caret token_shl token_shr token_eq_eq token_not_eq token_lt token_lt_eq : TokenKind
  token_gt token_gt_eq token_and_and token_or_or : TokenKind

-- A lexeme is kept as its runes.
pub record Token : Type 0 where
  pub kind : TokenKind
  pub lexeme : Runes
  pub span : Span

-- `TokenKind.String`.
unfoldable pub kind_string : TokenKind → String
kind_string token_eof = "EOF"
kind_string token_ident = "IDENT"
kind_string token_int = "INT"
kind_string token_float = "FLOAT"
kind_string token_string = "STRING"
kind_string token_char = "CHAR"
kind_string token_fn = "fn"
kind_string token_struct = "struct"
kind_string token_enum = "enum"
kind_string token_impl = "impl"
kind_string token_trait = "trait"
kind_string token_self = "self"
kind_string token_self_type = "Self"
kind_string token_const = "const"
kind_string token_type = "type"
kind_string token_pub = "pub"
kind_string token_macro = "macro"
kind_string token_quote = "quote"
kind_string token_import = "import"
kind_string token_as = "as"
kind_string token_in = "in"
kind_string token_where = "where"
kind_string token_let = "let"
kind_string token_mut = "mut"
kind_string token_if = "if"
kind_string token_else = "else"
kind_string token_while = "while"
kind_string token_loop = "loop"
kind_string token_for = "for"
kind_string token_break = "break"
kind_string token_continue = "continue"
kind_string token_match = "match"
kind_string token_return = "return"
kind_string token_true = "true"
kind_string token_false = "false"
kind_string token_lparen = "("
kind_string token_rparen = ")"
kind_string token_lbrace = "{"
kind_string token_rbrace = "}"
kind_string token_lbracket = "["
kind_string token_rbracket = "]"
kind_string token_comma = ","
kind_string token_colon = ":"
kind_string token_semicolon = ";"
kind_string token_arrow = "->"
kind_string token_fat_arrow = "=>"
kind_string token_dot = "."
kind_string token_colon_colon = "::"
kind_string token_dot_dot = ".."
kind_string token_dot_dot_eq = "..="
kind_string token_at = "@"
kind_string token_dollar = "$"
kind_string token_assign = "="
kind_string token_plus = "+"
kind_string token_minus = "-"
kind_string token_star = "*"
kind_string token_slash = "/"
kind_string token_percent = "%"
kind_string token_bang = "!"
kind_string token_amp = "&"
kind_string token_pipe = "|"
kind_string token_caret = "^"
kind_string token_shl = "<<"
kind_string token_shr = ">>"
kind_string token_eq_eq = "=="
kind_string token_not_eq = "!="
kind_string token_lt = "<"
kind_string token_lt_eq = "<="
kind_string token_gt = ">"
kind_string token_gt_eq = ">="
kind_string token_and_and = "&&"
kind_string token_or_or = "||"

-- The cases of `lookupKeyword`, in order.
abbrev pub keywords : List (String × TokenKind)
keywords =
    ("fn", token_fn)
    ∷ ("struct", token_struct)
    ∷ ("enum", token_enum)
    ∷ ("impl", token_impl)
    ∷ ("trait", token_trait)
    ∷ ("self", token_self)
    ∷ ("Self", token_self_type)
    ∷ ("const", token_const)
    ∷ ("type", token_type)
    ∷ ("pub", token_pub)
    ∷ ("macro", token_macro)
    ∷ ("quote", token_quote)
    ∷ ("import", token_import)
    ∷ ("as", token_as)
    ∷ ("in", token_in)
    ∷ ("where", token_where)
    ∷ ("let", token_let)
    ∷ ("mut", token_mut)
    ∷ ("if", token_if)
    ∷ ("else", token_else)
    ∷ ("while", token_while)
    ∷ ("loop", token_loop)
    ∷ ("for", token_for)
    ∷ ("break", token_break)
    ∷ ("continue", token_continue)
    ∷ ("match", token_match)
    ∷ ("return", token_return)
    ∷ ("true", token_true)
    ∷ ("false", token_false)
    ∷ []

switch_on : Runes → TokenKind → List (String × TokenKind) → TokenKind
switch_on lex default [] = default
switch_on lex default ((word, kind) ∷ cases) =
    if runes_eq lex (codes word) then kind else switch_on lex default cases

unfoldable pub lookup_keyword : Runes → TokenKind
unfolding switch_on runes_eq
lookup_keyword lex = switch_on lex token_ident keywords
