-- ===== src/Interp/Safety/Refs.antt =====
-- Reads and stores through references (compiler/stage0/internal/interp/runtime.go, and the helpers
-- of instr.go), with respect to panics and to the invariant of the store.
use dast_lang.Interp.Refs.{
  set_elem, array_at, deref, get_struct_field, index_value, set_index_value, set_struct_field,
  store, store_ref, object_array, object_struct, outside, read_elem, read_field, write_elem,
  write_field, through, array_of, struct_of, load,
}
use dast_lang.Interp.Safety.Live.{
  option-Safe, ok-Safe, err-Safe, some-Safe, later-Safe, Safe, Any, bind-Safe, if-Safe, found-Safe,
  LiveStore, LiveAfter, root,
}
use dast_lang.Interp.Machine.{
  update, write_cell, index_ref, field_ref, var_ref, write_object, RefTarget, Store,
}
use dast_lang.Base.{
  refl, [], ◌∷◌, true, zero, length, inr, ltb, get_elem?, inl, Option, arith, false, some, List,
  suc, String, ℕ, ◌<◌, ◌≡◌, ◌⊎◌, Bool-cases, ◌==◌,
}
use dast_lang.Interp.Store.{array_value, struct_value, panic, Object, Result}
use dast_lang.Interp.Arith.{lookup_field}
use dast_lang.Ir.Syntax.{struct, array, ref, int, Value}

pub struct_of-Safe : (s : Store) (v : Value) → Safe Any (struct_of s v)
struct_of-Safe s (struct (some p)) = object_struct-Safe p (s.objects p)
  where
    object_struct-Safe : (p : ℕ) (o : Option Object) → Safe Any (object_struct p o)
    object_struct-Safe p (some (struct_value name fields)) = record { outcome = tt }
    object_struct-Safe p _ = record { outcome = tt }
struct_of-Safe s _ = record { outcome = tt }

pub array_of-Safe : (s : Store) (v : Value) → Safe Any (array_of s v)
array_of-Safe s (array (some p)) = object_array-Safe p (s.objects p)
  where
    object_array-Safe : (p : ℕ) (o : Option Object) → Safe Any (object_array p o)
    object_array-Safe p (some (array_value elems)) = record { outcome = tt }
    object_array-Safe p _ = record { outcome = tt }
array_of-Safe s _ = record { outcome = tt }

get_elem?-inside :
    (i : ℕ) (elems : List Value)
    → outside i elems ≡ false
    → (v : Value) × (get_elem? elems i ≡ some v)
get_elem?-inside i elems inside = within i elems (ground arith)
  where
    within :
        (i : ℕ) (elems : List Value)
        → ltb i (length elems) ≡ true
        → (v : Value) × (get_elem? elems i ≡ some v)
    within i [] e = absurd (ground arith)
    within zero (v ∷ elems) e = (v, refl)
    within (suc i) (v ∷ elems) e = within i elems (ground arith)

read_field-Safe :
    (field : String) (o : ℕ × String × List (String × Value)) → Safe Any (read_field field o)
read_field-Safe field (p, name, fields) = found-Safe _ (lookup_field field fields) tt (λ _ _. tt)

read_elem-Safe : (i : ℕ) (o : ℕ × List Value) → Safe Any (read_elem i o)
read_elem-Safe i (p, elems) =
    if-Safe (outside i elems) (λ _. err-Safe tt)
      (λ inside.
        let (v, h) = get_elem?-inside i elems inside in some-Safe panic (get_elem? elems i) v h tt)

-- Objects hold no cells.
pub write_object-LiveAfter :
    (p : ℕ) (o : Object) (s : Store) → LiveStore s → LiveAfter s (write_object p o s)
write_object-LiveAfter p o s live = (record { cells = live.cells; heap = live.heap }, omega arith)

write_field-Safe :
    (field : String) (v : Value) (s : Store) (o : ℕ × String × List (String × Value))
    → LiveStore s
    → Safe (LiveAfter s) (write_field field v s o)
write_field-Safe field v s (p, name, fields) live =
    option-Safe (lookup_field field fields) (λ _. err-Safe tt)
      (λ _ _. ok-Safe (write_object-LiveAfter p _ s live))

set_elem-Safe :
    (elems : List Value) (i : ℕ) (v : Value) → i < length elems → Safe Any (set_elem elems i v)
set_elem-Safe [] i v within = absurd (omega (arith, within))
set_elem-Safe (w ∷ elems) zero v within = ok-Safe tt
set_elem-Safe (w ∷ elems) (suc i) v within =
    bind-Safe (set_elem-Safe elems i v (omega (arith, within))) (λ _ _. ok-Safe tt)

outside-false : (i : ℕ) (elems : List Value) → outside i elems ≡ false → i < length elems
outside-false i elems e = ground arith

write_elem-Safe :
    (i : ℕ) (v : Value) (s : Store) (o : ℕ × List Value)
    → LiveStore s
    → Safe (LiveAfter s) (write_elem i v s o)
write_elem-Safe i v s (p, elems) live =
    if-Safe (outside i elems) (λ _. err-Safe tt)
      (λ within.
        bind-Safe (set_elem-Safe elems i v (outside-false i elems within))
          (λ changed _. ok-Safe (write_object-LiveAfter p (array_value changed) s live)))

through-Safe :
    (read : RefTarget → Result Value) (s : Store) (v : Value)
    → LiveStore s
    → ((target : RefTarget) → root target < s.next_cell → Safe Any (read target))
    → Safe Any (through read s v)
through-Safe read s (ref a) live safe =
    bind-Safe (found-Safe {P = λ t. root t < s.next_cell} _ (s.heap a) tt (live.heap a)) safe
through-Safe read s _ live safe = record { outcome = tt }

load-Safe :
    (s : Store) (fuel : ℕ) (target : RefTarget)
    → LiveStore s
    → root target < s.next_cell
    → Safe Any (load s fuel target)
unfolding load
load-Safe s zero target live below = record { outcome = tt }
load-Safe s (suc fuel) (var_ref cell) live below =
    let (v, h) = live.cells cell below in some-Safe panic (s.cells cell) v h tt
load-Safe s (suc fuel) (field_ref base field) live below =
    bind-Safe (load-Safe s fuel base live below) (λ v _.
      bind-Safe (through-Safe (load s fuel) s v live (λ t l. load-Safe s fuel t live l))
        (λ w _. bind-Safe (struct_of-Safe s w) (λ o _. read_field-Safe field o)))
load-Safe s (suc fuel) (index_ref base i) live below =
    bind-Safe (load-Safe s fuel base live below) (λ v _.
      bind-Safe (through-Safe (load s fuel) s v live (λ t l. load-Safe s fuel t live l))
        (λ w _. bind-Safe (array_of-Safe s w) (λ o _. read_elem-Safe i o)))

-- A cell that is stored to holds a value.
pub write_cell-LiveAfter :
    (cell : ℕ) (v : Value) (s : Store)
    → LiveStore s
    → cell < s.next_cell
    → LiveAfter s (write_cell cell v s)
write_cell-LiveAfter cell v s live below =
    (record { cells = λ q l. held q l (Bool-cases (q == cell)); heap = live.heap }, omega arith)
  where
    held :
        (q : ℕ)
        → q < s.next_cell
        → ((q == cell) ≡ true) ⊎ ((q == cell) ≡ false)
        → (w : Value) × (update s.cells cell v q ≡ some w)
    held q l (inl same) = (v, ground arith)
    held q l (inr other) = let (w, h) = live.cells q l in (w, ground arith)

pub store-Safe :
    (s : Store) (fuel : ℕ) (target : RefTarget) (v : Value)
    → LiveStore s
    → root target < s.next_cell
    → Safe (LiveAfter s) (store s fuel target v)
unfolding store
store-Safe s zero target v live below = err-Safe tt
store-Safe s (suc fuel) (var_ref cell) v live below =
    ok-Safe (write_cell-LiveAfter cell v s live below)
store-Safe s (suc fuel) (field_ref base field) v live below =
    bind-Safe (load-Safe s fuel base live below) (λ b _.
      bind-Safe (through-Safe (load s fuel) s b live (λ t l. load-Safe s fuel t live l)) (λ w _.
        bind-Safe (struct_of-Safe s w) (λ o _.
          bind-Safe (write_field-Safe field v s o live) (λ s' after.
            later-Safe s s' after (store-Safe s' fuel base w after.0 (omega (arith, after.1)))))))
store-Safe s (suc fuel) (index_ref base i) v live below =
    bind-Safe (load-Safe s fuel base live below) (λ b _.
      bind-Safe (through-Safe (load s fuel) s b live (λ t l. load-Safe s fuel t live l)) (λ w _.
        bind-Safe (array_of-Safe s w) (λ o _. bind-Safe (write_elem-Safe i v s o live) (λ s' after.
          later-Safe s s' after (store-Safe s' fuel base w after.0 (omega (arith, after.1)))))))

module _ (s : Store) (fuel : ℕ) (live : LiveStore s) where
  pub deref-Safe : (v : Value) → Safe Any (deref s fuel v)
  unfolding deref
  deref-Safe (ref a) =
      bind-Safe (found-Safe {P = λ t. root t < s.next_cell} _ (s.heap a) tt (live.heap a))
        (λ t l. load-Safe s fuel t live l)
  deref-Safe _ = record { outcome = tt }

  seen-Safe : (v : Value) → Safe Any (through (load s fuel) s v)
  seen-Safe v = through-Safe (load s fuel) s v live (λ t l. load-Safe s fuel t live l)

  pub store_ref-Safe : (r v : Value) → Safe (LiveAfter s) (store_ref s fuel r v)
  unfolding store_ref
  store_ref-Safe (ref a) v =
      bind-Safe (found-Safe {P = λ t. root t < s.next_cell} _ (s.heap a) tt (live.heap a))
        (λ t l. store-Safe s fuel t v live l)
  store_ref-Safe _ v = record { outcome = tt }

  pub get_struct_field-Safe :
      (v : Value) (field : String) → Safe Any (get_struct_field s fuel v field)
  unfolding get_struct_field
  get_struct_field-Safe v field =
      bind-Safe (seen-Safe v)
        (λ w _. bind-Safe (struct_of-Safe s w) (λ o _. read_field-Safe field o))

  pub set_struct_field-Safe :
      (v : Value) (field : String) (w : Value)
      → Safe (LiveAfter s) (set_struct_field s fuel v field w)
  unfolding set_struct_field
  set_struct_field-Safe v field w =
      bind-Safe (seen-Safe v)
        (λ b _. bind-Safe (struct_of-Safe s b) (λ o _. write_field-Safe field w s o live))

  pub array_at-Safe : (v : Value) → Safe Any (array_at s fuel v)
  unfolding array_at
  array_at-Safe v = bind-Safe (seen-Safe v) (λ b _. array_of-Safe s b)

  -- The access that checks its bounds.
  pub index_value-Safe : (base idx : Value) → Safe Any (index_value false s fuel base idx)
  unfolding index_value
  index_value-Safe base (int i t) = bind-Safe (array_at-Safe base) (λ o _. read_elem-Safe i o)
  index_value-Safe base _ = record { outcome = tt }

  pub set_index_value-Safe :
      (base idx v : Value) → Safe (LiveAfter s) (set_index_value false s fuel base idx v)
  unfolding set_index_value
  set_index_value-Safe base (int i t) v =
      bind-Safe (array_at-Safe base) (λ o _. write_elem-Safe i v s o live)
  set_index_value-Safe base _ v = record { outcome = tt }
