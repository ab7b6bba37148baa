-- ===== src/Ast/Tree.antt =====
-- The syntax tree of compiler/stage0/internal/ast: expr.go, stmt.go and pattern.go. A constructor
-- stands for a struct behind the interface, and one for its nil; spans are left out.
use dast_lang.Base.{ℕ, String, Bool, List, Runes}
use dast_lang.Ast.Types.{OptTy, Tys, ClosureParam}
use dast_lang.Ast.Values.{ConstValue, QuoteKind}

mutual
  pub data Expr : Type 0 where
    no_expr : Expr
    ident : (name : String) → Expr
    int_lit : (value : ℕ) → Expr
    char_lit : (value : ℕ) → Expr
    float_lit : (text : String) → Expr
    bool_lit : (value : Bool) → Expr
    string_lit : (value : Runes) → Expr
    array_lit : (elems : Exprs) → Expr
    tuple_lit : (elems : Exprs) → Expr
    unary : (op : String) (expr : Expr) → Expr
    ref_expr : (mutable : Bool) (expr : Expr) → Expr
    compile_expr : (id : ℕ) (expr : Expr) → Expr
    quote_expr : (kind : QuoteKind) (parts : QuoteParts) → Expr
    macro_call : (callee : Expr) (args : Exprs) → Expr
    deref_expr : (expr : Expr) → Expr
    binary : (op : String) (left : Expr) (right : Expr) → Expr
    call : (callee : String) (type_args : Tys) (args : Exprs) → Expr
    method_call :
        (receiver : Expr) (method : String) (args : Exprs) (resolved_name : String)
        (resolved_self : Bool) (enum_name : String)
        → Expr
    closure : (params : List ClosureParam) (return_type : OptTy) (body : Expr) → Expr
    struct_lit : (name : String) (type_args : Tys) (fields : FieldInits) → Expr
    access : (receiver : Expr) (field : String) → Expr
    index_expr : (receiver : Expr) (index : Expr) → Expr
    enum_variant : (enum_name : String) (type_args : Tys) (variant : String) (arg : Expr) → Expr
    block_expr : (block : Block) → Expr
    loop_expr : (body : Block) → Expr
    if_expr : (cond : Expr) (then_expr : Expr) (else_expr : Expr) → Expr
    match_expr : (expr : Expr) (arms : Arms) → Expr

  pub data Exprs : Type 0 where
    no_exprs : Exprs
    cons_expr : (head : Expr) (tail : Exprs) → Exprs

  pub data QuoteParts : Type 0 where
    no_parts : QuoteParts
    cons_part : (text : Runes) (expr : Expr) (tail : QuoteParts) → QuoteParts

  pub data FieldInits : Type 0 where
    no_inits : FieldInits
    cons_init : (name : String) (value : Expr) (tail : FieldInits) → FieldInits

  pub data Block : Type 0 where
    no_block : Block
    block : (stmts : Stmts) → Block

  pub data Stmt : Type 0 where
    no_stmt : Stmt
    block_stmt : (block : Block) → Stmt
    let_stmt : (name : String) (mutable : Bool) (type : OptTy) (init : Expr) → Stmt
    let_pattern : (pattern : Pattern) (mutable : Bool) (type : OptTy) (init : Expr) → Stmt
    assign : (target : Expr) (value : Expr) → Stmt
    expr_stmt : (expr : Expr) → Stmt
    return_stmt : (value : Expr) → Stmt
    if_stmt : (cond : Expr) (then_block : Block) (else_block : Block) → Stmt
    if_let : (pattern : Pattern) (expr : Expr) (then_block : Block) (else_block : Block) → Stmt
    while_stmt : (label : String) (cond : Expr) (body : Block) → Stmt
    while_let : (label : String) (pattern : Pattern) (expr : Expr) (body : Block) → Stmt
    loop_stmt : (label : String) (body : Block) → Stmt
    break_stmt : (label : String) (value : Expr) → Stmt
    continue_stmt : (label : String) → Stmt
    match_stmt : (expr : Expr) (arms : Arms) → Stmt
    for_stmt : (label : String) (pattern : Pattern) (expr : Expr) (body : Block) → Stmt

  pub data Stmts : Type 0 where
    no_stmts : Stmts
    cons_stmt : (head : Stmt) (tail : Stmts) → Stmts

  pub data Arms : Type 0 where
    no_arms : Arms
    cons_arm : (pattern : Pattern) (guard : Expr) (body : Block) (tail : Arms) → Arms

  pub data Pattern : Type 0 where
    no_pattern : Pattern
    wildcard : Pattern
    binding : (name : String) → Pattern
    variant :
        (enum_name : String) (variant_name : String) (binding_name : String) (payload : Pattern)
        → Pattern
    literal : (value : ConstValue) → Pattern
    range_pattern : (start : Expr) (end : Expr) (inclusive : Bool) → Pattern
    or_pattern : (alts : Patterns) → Pattern
    struct_pattern : (struct_name : String) (fields : FieldPatterns) → Pattern
    tuple_pattern : (elems : Patterns) → Pattern
    array_pattern : (elems : Patterns) → Pattern

  pub data Patterns : Type 0 where
    no_patterns : Patterns
    cons_pattern : (head : Pattern) (tail : Patterns) → Patterns

  pub data FieldPatterns : Type 0 where
    no_field_patterns : FieldPatterns
    cons_field_pattern :
        (name : String) (binding_name : String) (pattern : Pattern) (tail : FieldPatterns)
        → FieldPatterns
