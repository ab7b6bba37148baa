-- ===== src/Lib.antt =====
-- The stage 0 compiler of the Dast language: a model of parts of compiler/stage0/internal, with
-- proofs. A source text is split into tokens, parsed, checked and lowered to an intermediate
-- representation (IR), which is optimised, interpreted or compiled.
--
-- Source: the positions of compiler/stage0/internal/source/source.go.
-- Lexer: compiler/stage0/internal/lexer. `Token` has the kinds, their spelling and the keywords, `Chars`
--   the character classes, `State` the cursor and its moves (`advance`, `match`, `peekAhead`), `Scan`
--   the scanning loops, and `Next` the switch of `Next` and the token loop (`DebugTokens`, which is
--   also `lexTokens` of compiler/stage0/internal/parser/helpers.go). `Moves`, `Blanks`, `Symbols`,
--   `Literals`, `Grammar`, `Unknown`, `Tokens`, `Positions`, `Stream` and `Spelled` are about these.
--   The model starts at runes: `rest` is `src[idx:]`. The classes of package unicode are written out
--   for Latin-1, and their tables beyond it are a parameter.
-- Ast: compiler/stage0/internal/ast. `Types`, `Values`, `Tree` and `Items` have the syntax tree, whose
--   spans are left out: a constructor stands for a struct behind an interface, and one for a nil.
--   `Escape` has the printing of string and character literals of format.go.
-- Ir: the data of compiler/stage0/internal/ir/ir.go in `Syntax`, and the optimiser of ir/opt.go:
--   `Fold` (`foldBinary`), `Inline` (`inlineCalls` and what it calls), `BlockPass` (`optimizeBlock`,
--   `scanArraySafety`, `Optimize`), `Prune` (`pruneUnreachable`). Go's maps are functions or lists of
--   pairs, a nil pointer is `none`, a negative destination of a call is `none`. A program's functions
--   are not nil here. `Bounds` is about the numbers of temps under inlining, and `Validate` has
--   `validateFunction` of ir.go, up to the definite assignments; `Validate/Inlining` is about both.
-- Interp: compiler/stage0/internal/interp. `Store` has the objects behind pointers and the result of a
--   step, `Arith` the operators of eval.go, `Machine` the state of runtime.go (what Go's pointers
--   name, the interpreter's addresses, frames), `Refs` the accesses through references, `Exec`
--   `execInstr` and `execFrame`, `Call` `callFunction`, `freeFrame` and `Run`, and `Builtins` push and
--   pop. The state is passed from step to step. The table of built-in functions is a field of the runtime, as in the
--   source. `FoldAgrees`, `PruneSound` and `PruneCalls` set folding and pruning against the
--   interpreter; `ConstsHold`, `StoreHolds`, `KeepCells`, `FoldKnown`, `ConstsStep`,
--   `ConstsSound`, `CallsGrow`, `FreshCells`, `OptimizeSound` and `OptimizeCalls` do so with the pass over
--   a block, and `OptimizeProgram` with `Optimize` where nothing is inlined (`Ir/Passes`);
--   `PushPop` is about `Builtins`. `Safety` is about panics: the
--   invariant of the store in `Live`, references (`Refs`), operators (`Ops`), instructions (`Changes`,
--   `Operands`, `Steps`) and calls (`Calls`, `Panics`). `KeepRefs` is about `freeFrame` and the references
--   that a call finds. `AstEq` has the comparison of syntax trees of
--   ast_eq.go.
--   `Hygiene` has hygieneRenamer of quote.go: its state in `Renamer`, `Patterns` and `Trees` what it does
--   to a tree, `Counter`, `Scopes` and `Laws` what it leaves of the state. fmt's %d and isPlaceholder,
--   which reads a number with strconv, are a parameter.
--
-- Typecheck: compiler/stage0/internal/typecheck. `ConstEval` is const_eval.go: `Ops` and `Eval` have its
--   functions, `Floats` the parameter for float64 and strconv, `Lowered` the value at run time of the
--   code that compiler/stage0/internal/compile/expr.go emits for the same expression, and `OpsAgree` and
--   `Sound` compare the two. `Types` is the checker's own types, and `Clone` is clone.go: `Types` and
--   `Trees` have its functions, `Avoids` and `Closures` say that no type in a tree is one of some names, and
--   `TypesAvoid`, `TreesAvoid`, `Same` and `Laws` are about the copies, and `Unresolved` says that no method
--   call of a tree is resolved. A map from names to types is a
--   function, and a missing entry is `none`.
--
-- Integers are bit patterns below 2 ^ 64 (Base/Int64); the operations wrap, and signed comparison and
-- division read the pattern in two's complement.
--
-- Fuel: `skip_rounds` has one round more than there are runes left, since each round but the last
-- takes a rune; `lex_tokens` likewise, since a token other than EOF takes a rune. `prune_blocks` has
-- two rounds for each block and two more, since a block's label is marked once and pushes two labels
-- at most. The fuel of `call_function` bounds the depth of calls, the rounds of a frame's loop and the
-- depth of references; an interpreted program may run for ever, so that no fuel is enough for all,
-- and the theorems on it hold for every fuel. `values_equal` runs out of fuel on a struct that holds
-- itself, where the source does not return.
--
-- Panics: the model has those of an index out of range, a nil pointer and a division by zero. Memory and
-- the stack are taken to be large enough: `setTemp` and a frame of `TempCount` temps always get their
-- slices, which Go refuses beyond its limits, and a TempCount below zero is not modelled. The counter of
-- hygieneRenamer is a number with no bound, an int64 in the source.
--
-- Not modelled: decoding UTF-8, the parser, the rest of the type checker, lowering to the IR, the other
-- built-in functions, the splicing of quotations, the QBE backend, the loader and the command line.
pub mod Base
pub mod Source
pub mod Lexer
pub mod Ast
pub mod Ir
pub mod Interp
pub mod Typecheck
