-- ===== src/Interp/Safety/Builtins.antt =====
-- The built-in functions on arrays of compiler/stage0/internal/interp/eval.go, with respect to panics.
use dast_lang.Interp.Builtins.{pop_from, split_last, builtin_pop, builtin_push}
use dast_lang.Interp.Machine.{Store}
use dast_lang.Interp.Safety.Live.{LiveStore, LiveAfter, Safe, bind-Safe, ok-Safe, err-Safe}
use dast_lang.Interp.Safety.Refs.{array_at-Safe, write_object-LiveAfter}
use dast_lang.Base.{ℕ, List, [], ◌∷◌, Option, none, some}
use dast_lang.Ir.Syntax.{ref, Value}

pub builtin_push-Safe :
    (fuel : ℕ) (args : List Value) (s : Store)
    → LiveStore s
    → Safe (λ r. LiveAfter s r.1) (builtin_push fuel args s)
unfolding builtin_push
builtin_push-Safe fuel (ref a ∷ v ∷ []) s live =
    bind-Safe (array_at-Safe s fuel live (ref a))
      (λ o _. ok-Safe (write_object-LiveAfter o.0 _ s live))
builtin_push-Safe fuel (_ ∷ _ ∷ []) s live = record { outcome = tt }
builtin_push-Safe fuel _ s live = record { outcome = tt }

pop_from-Safe :
    (p : ℕ) (s : Store) (split : Option (Value × List Value))
    → LiveStore s
    → Safe (λ r. LiveAfter s r.1) (pop_from p s split)
pop_from-Safe p s none live = err-Safe tt
pop_from-Safe p s (some (last, front)) live = ok-Safe (write_object-LiveAfter p _ s live)

pub builtin_pop-Safe :
    (fuel : ℕ) (args : List Value) (s : Store)
    → LiveStore s
    → Safe (λ r. LiveAfter s r.1) (builtin_pop fuel args s)
unfolding builtin_pop
builtin_pop-Safe fuel (ref a ∷ []) s live =
    bind-Safe (array_at-Safe s fuel live (ref a)) (λ o _. pop_from-Safe o.0 s (split_last o.1) live)
builtin_pop-Safe fuel (_ ∷ []) s live = record { outcome = tt }
builtin_pop-Safe fuel _ s live = record { outcome = tt }
