-- ===== src/Interp/KeepRefs/Calls.antt =====
-- Instructions, frames and calls of compiler/stage0/internal/interp, and `freeFrame` of runtime.go, with
-- respect to the references that were there before.
use dast_lang.Base.{some, List, ◌≡◌, Runes}
use dast_lang.Interp.Store.{Result}
use dast_lang.Interp.KeepRefs.Gives.{Gives}
use dast_lang.Interp.KeepRefs.Frames.{KeepsRefs}
use dast_lang.Interp.Machine.{Store, Machine}
use dast_lang.Interp.Exec.{Calls}
use dast_lang.Interp.Call.{Runtime}
use dast_lang.Ir.Syntax.{Value}

abbrev pub CallsKeepRefs : Calls → Type 0
CallsKeepRefs calls =
    (name : Runes) (args : List Value) (s : Store)
    → Gives (λ r. KeepsRefs s r.1) (calls name args s)

-- Every built-in function leaves the references as they are, if it returns.
abbrev pub BuiltinsKeepRefs : Runtime → Type 0
BuiltinsKeepRefs rt =
    (name : Runes) (builtin : List Value → Store → Result (Value × Store))
    → rt.builtins name ≡ some builtin
    → (args : List Value) (s : Store) → Gives (λ r. KeepsRefs s r.1) (builtin args s)
