-- ===== src/Interp/Refs.antt =====
-- References, fields and elements: `load` and `store` of the `refTarget`s of
-- compiler/stage0/internal/interp/runtime.go, and `deref`, `storeRef`, `getStructField`,
-- `setStructField`, `arrayValue`, `index` and `setIndex` of instr.go.
use text.Mathlib.Text.{◌==◌ as str_eq}
use dast_lang.Base.{
  ℕ, zero, suc, String, Bool, not, ◌||◌, Option, none, some, List, [], ◌∷◌, ltb, if◌then◌else◌,
  length, get_elem?,
}
use dast_lang.Base.Int64.{is_negative}
use dast_lang.Interp.Arith.{lookup_field}
use dast_lang.Interp.Machine.{
  RefTarget, var_ref, field_ref, index_ref, Store, write_cell, write_object,
}
use dast_lang.Interp.Store.{
  Object, struct_value, array_value, Result, ok, err, ◌>>=◌, type_error, invalid_reference,
  unknown_field, out_of_bounds, panic, out_of_fuel,
}
use dast_lang.Ir.Syntax.{Value, int, ref, struct, array}

abbrev pub found {ℓ} : {A : Type ℓ} → Result A → Option A → Result A
found missing none = missing
found missing (some a) = ok a

-- The fields of the struct that a value points to, with the object's name and its place.
abbrev pub object_struct : ℕ → Option Object → Result (ℕ × String × List (String × Value))
object_struct p (some (struct_value name fields)) = ok (p, name, fields)
object_struct p _ = err type_error

abbrev pub struct_of : Store → Value → Result (ℕ × String × List (String × Value))
struct_of s (struct (some p)) = object_struct p (s.objects p)
struct_of s _ = err type_error

abbrev pub object_array : ℕ → Option Object → Result (ℕ × List Value)
object_array p (some (array_value elems)) = ok (p, elems)
object_array p _ = err type_error

abbrev pub array_of : Store → Value → Result (ℕ × List Value)
array_of s (array (some p)) = object_array p (s.objects p)
array_of s _ = err type_error

abbrev pub set_field_value : String → Value → List (String × Value) → List (String × Value)
set_field_value field v [] = []
set_field_value field v ((name, w) ∷ fields) =
    if str_eq name field then (name, v) ∷ fields else (name, w) ∷ set_field_value field v fields

-- `elems[i] = v`, which panics in Go out of range.
abbrev pub set_elem : List Value → ℕ → Value → Result (List Value)
set_elem [] i v = err panic
set_elem (w ∷ elems) zero v = ok (v ∷ elems)
set_elem (w ∷ elems) (suc i) v = set_elem elems i v >>= λ rest. ok (w ∷ rest)

-- `idx < 0 || idx >= len(elems)` on an `int`.
abbrev pub outside : ℕ → List Value → Bool
outside i elems = is_negative i || not (ltb i (length elems))

abbrev pub read_field : String → ℕ × String × List (String × Value) → Result Value
read_field field (p, name, fields) = found (err unknown_field) (lookup_field field fields)

abbrev pub read_elem : ℕ → ℕ × List Value → Result Value
read_elem i (p, elems) =
    if outside i elems then err out_of_bounds else found (err panic) (get_elem? elems i)

abbrev pub write_field : String → Value → Store → ℕ × String × List (String × Value) → Result Store
write_field field v s (p, name, fields) = elim (lookup_field field fields) [
  | none ↦ err unknown_field
  | some _ ↦ ok (write_object p (struct_value name (set_field_value field v fields)) s)
]

abbrev pub write_elem : ℕ → Value → Store → ℕ × List Value → Result Store
write_elem i v s (p, elems) =
    if outside i elems
    then err out_of_bounds
    else set_elem elems i v >>= λ changed. ok (write_object p (array_value changed) s)

-- `if v.Kind == KindRef { v = deref(v) }`, where `load` reads a target.
abbrev pub through : (RefTarget → Result Value) → Store → Value → Result Value
through load s (ref a) = found (err invalid_reference) (s.heap a) >>= load
through load s v = ok v

-- `load`, on fuel: the base of a target may hold a reference to any other.
unfoldable pub load : Store → ℕ → RefTarget → Result Value
load s zero target = err out_of_fuel
load s (suc fuel) (var_ref p) = found (err panic) (s.cells p)
load s (suc fuel) (field_ref base field) = load s fuel base >>= λ v.
    through (λ t. load s fuel t) s v >>= λ w. struct_of s w >>= read_field field
load s (suc fuel) (index_ref base i) =
    load s fuel base >>= λ v. through (λ t. load s fuel t) s v >>= λ w. array_of s w >>= read_elem i

-- `deref`.
unfoldable pub deref : Store → ℕ → Value → Result Value
unfolding load
deref s fuel (ref a) = found (err invalid_reference) (s.heap a) >>= load s fuel
deref s fuel _ = err type_error

-- `store`: the object is changed, and its pointer is then stored to the base.
unfoldable pub store : Store → ℕ → RefTarget → Value → Result Store
unfolding load
store s zero target v = err out_of_fuel
store s (suc fuel) (var_ref p) v = ok (write_cell p v s)
store s (suc fuel) (field_ref base field) v = load s fuel base >>= λ b.
    through (load s fuel) s b >>= λ w.
    struct_of s w >>= λ o. write_field field v s o >>= λ s'. store s' fuel base w
store s (suc fuel) (index_ref base i) v = load s fuel base >>= λ b.
    through (load s fuel) s b >>= λ w.
    array_of s w >>= λ o. write_elem i v s o >>= λ s'. store s' fuel base w

-- `storeRef`.
unfoldable pub store_ref : Store → ℕ → Value → Value → Result Store
unfolding store
store_ref s fuel (ref a) v =
    found (err invalid_reference) (s.heap a) >>= λ target. store s fuel target v
store_ref s fuel _ v = err type_error

-- `getStructField`, `setStructField` and `arrayValue` see through one reference.
unfoldable pub get_struct_field : Store → ℕ → Value → String → Result Value
unfolding load
get_struct_field s fuel v field =
    through (load s fuel) s v >>= λ w. struct_of s w >>= read_field field

unfoldable pub set_struct_field : Store → ℕ → Value → String → Value → Result Store
unfolding load
set_struct_field s fuel v field value =
    through (load s fuel) s v >>= λ w. struct_of s w >>= write_field field value s

unfoldable pub array_at : Store → ℕ → Value → Result (ℕ × List Value)
unfolding load
array_at s fuel v = through (load s fuel) s v >>= array_of s

-- `index` and `setIndex`, and their versions without the bounds check, which panic in Go.
unfoldable pub index_value : Bool → Store → ℕ → Value → Value → Result Value
unfolding array_at
index_value unchecked s fuel base (int i _) = array_at s fuel base >>= λ o.
    if unchecked
    then (if outside i o.1 then err panic else found (err panic) (get_elem? o.1 i))
    else read_elem i o
index_value unchecked s fuel base _ = err type_error

unfoldable pub set_index_value : Bool → Store → ℕ → Value → Value → Value → Result Store
unfolding array_at
set_index_value unchecked s fuel base (int i _) v = array_at s fuel base >>= λ o.
    if unchecked
    then (if outside i o.1 then err panic else write_elem i v s o)
    else write_elem i v s o
set_index_value unchecked s fuel base _ v = err type_error
