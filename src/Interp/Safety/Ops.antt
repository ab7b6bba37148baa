-- ===== src/Interp/Safety/Ops.antt =====
-- The operators of compiler/stage0/internal/interp/eval.go, with respect to panics.
use dast_lang.Interp.Arith.{
  go_div, go_rem, int_or_panic, is_unsigned_int_name, both_equal, on_ints, pick_int_type,
  fields_equal, objects_equal, payloads_equal, pointers_equal, lookup_field, eval_binary, eval_ints,
  values_equal,
}
use dast_lang.Base.{
  ◌≡◌, ◌==◌, length, ◌&&◌, false, zero, suc, true, List, Option, String, ℕ, Bool, none, some, [],
  ◌∷◌,
}
use dast_lang.Interp.Safety.Live.{option-Safe, Safe, Any, bind-Safe, if-Safe, ok-Safe}
use dast_lang.Base.Int64.{is_negative}
use text.Mathlib.Text.{◌==◌ as str_eq}
use dast_lang.Ir.Syntax.{
  unit, ast, struct, enum, div, rem, shl, shr, add, string, int, bool, eq, ne, and, or, other,
  BinaryOp, Value,
}
use dast_lang.Interp.Store.{struct_value, enum_value, Object, Objects, ok, err, Result}

both_equal-Safe : (a b : Result Bool) → Safe Any a → Safe Any b → Safe Any (both_equal a b)
both_equal-Safe (ok true) b safe safe' = safe'
both_equal-Safe (ok false) b safe safe' = record { outcome = tt }
both_equal-Safe (err e) b safe safe' = safe

module _ (equal : Value → Value → Result Bool) (safe : (v w : Value) → Safe Any (equal v w)) where
  fields_equal-Safe :
      (fields others : List (String × Value)) → Safe Any (fields_equal equal fields others)
  unfolding fields_equal
  fields_equal-Safe [] others = record { outcome = tt }
  fields_equal-Safe ((name, v) ∷ fields) others =
      option-Safe (lookup_field name others) (λ _. ok-Safe tt)
        (λ w _. both_equal-Safe _ _ (safe v w) (fields_equal-Safe fields others))

  payloads_equal-Safe : (p q : Option Value) → Safe Any (payloads_equal equal p q)
  unfolding payloads_equal
  payloads_equal-Safe none none = record { outcome = tt }
  payloads_equal-Safe (some v) (some w) = safe v w
  payloads_equal-Safe none (some w) = record { outcome = tt }
  payloads_equal-Safe (some v) none = record { outcome = tt }

  objects_equal-Safe : (o o' : Option Object) → Safe Any (objects_equal equal o o')
  unfolding objects_equal
  objects_equal-Safe (some (struct_value m fields)) (some (struct_value n others)) =
      if-Safe (str_eq m n && length fields == length others) (λ _. fields_equal-Safe fields others)
        (λ _. record { outcome = tt })
  objects_equal-Safe (some (enum_value m v p)) (some (enum_value n w q)) =
      if-Safe (str_eq m n && str_eq v w) (λ _. payloads_equal-Safe p q)
        (λ _. record { outcome = tt })
  objects_equal-Safe _ _ = record { outcome = tt }

  pointers_equal-Safe :
      (objects : Objects) (p q : Option ℕ) → Safe Any (pointers_equal equal objects p q)
  unfolding pointers_equal
  pointers_equal-Safe objects none none = record { outcome = tt }
  pointers_equal-Safe objects (some p) (some q) = objects_equal-Safe (objects p) (objects q)
  pointers_equal-Safe objects none (some q) = record { outcome = tt }
  pointers_equal-Safe objects (some p) none = record { outcome = tt }

values_equal-Safe :
    (objects : Objects) (fuel : ℕ) (a b : Value) → Safe Any (values_equal objects fuel a b)
unfolding values_equal
values_equal-Safe objects zero a b = record { outcome = tt }
values_equal-Safe objects (suc fuel) (struct p) (struct q) =
    pointers_equal-Safe (values_equal objects fuel) (values_equal-Safe objects fuel) objects p q
values_equal-Safe objects (suc fuel) (enum p) (enum q) =
    pointers_equal-Safe (values_equal objects fuel) (values_equal-Safe objects fuel) objects p q
values_equal-Safe objects (suc fuel) (int a s) (int b t) = record { outcome = tt }
values_equal-Safe objects (suc fuel) (bool a) (bool b) = record { outcome = tt }
values_equal-Safe objects (suc fuel) (string a) (string b) = record { outcome = tt }
values_equal-Safe objects (suc fuel) (unit) (unit) = record { outcome = tt }
values_equal-Safe objects (suc fuel) (ast k a) (ast j b) = record { outcome = tt }
values_equal-Safe objects (suc fuel) _ _ = record { outcome = tt }

go_div-Safe :
    (t : String) (unsigned : Bool) (a b : ℕ)
    → (b == 0) ≡ false
    → Safe Any (int_or_panic t (go_div unsigned a b))
go_div-Safe t unsigned a b nonzero = rw nonzero (ok-Safe tt)

go_rem-Safe :
    (t : String) (unsigned : Bool) (a b : ℕ)
    → (b == 0) ≡ false
    → Safe Any (int_or_panic t (go_rem unsigned a b))
go_rem-Safe t unsigned a b nonzero = rw nonzero (ok-Safe tt)

eval_ints-Safe : (op : BinaryOp) (t : String) (a b : ℕ) → Safe Any (eval_ints op t a b)
unfolding eval_ints
eval_ints-Safe div t a b =
    if-Safe (b == 0) (λ _. record { outcome = tt })
      (λ nonzero. go_div-Safe t (is_unsigned_int_name t) a b nonzero)
eval_ints-Safe rem t a b =
    if-Safe (b == 0) (λ _. record { outcome = tt })
      (λ nonzero. go_rem-Safe t (is_unsigned_int_name t) a b nonzero)
eval_ints-Safe shl t a b =
    if-Safe (is_negative b) (λ _. record { outcome = tt }) (λ _. record { outcome = tt })
eval_ints-Safe shr t a b =
    if-Safe (is_negative b) (λ _. record { outcome = tt }) (λ _. record { outcome = tt })
eval_ints-Safe _ t a b = record { outcome = tt }

on_ints-Safe : (op : BinaryOp) (a b : Value) → Safe Any (on_ints op a b)
on_ints-Safe op (int a s) (int b t) = eval_ints-Safe op (pick_int_type s t) a b
on_ints-Safe add (string a) (string b) = record { outcome = tt }
on_ints-Safe op _ _ = record { outcome = tt }

pub eval_binary-Safe :
    (objects : Objects) (fuel : ℕ) (op : BinaryOp) (a b : Value)
    → Safe Any (eval_binary objects fuel op a b)
unfolding eval_binary
eval_binary-Safe objects fuel eq a b =
    bind-Safe (values_equal-Safe objects fuel a b) (λ _ _. record { outcome = tt })
eval_binary-Safe objects fuel ne a b =
    bind-Safe (values_equal-Safe objects fuel a b) (λ _ _. record { outcome = tt })
eval_binary-Safe objects fuel and (bool a) (bool b) = record { outcome = tt }
eval_binary-Safe objects fuel and _ _ = record { outcome = tt }
eval_binary-Safe objects fuel or (bool a) (bool b) = record { outcome = tt }
eval_binary-Safe objects fuel or _ _ = record { outcome = tt }
eval_binary-Safe objects fuel (other _) a b = record { outcome = tt }
eval_binary-Safe objects fuel op a b = on_ints-Safe op a b
