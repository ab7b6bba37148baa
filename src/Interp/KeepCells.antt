-- ===== src/Interp/KeepCells.antt =====
-- What the assignments of compiler/stage0/internal/interp leave as it is: a field or an element keeps
-- all cells of variables (instr.go), a store through a reference keeps their number (runtime.go).
use dast_lang.Interp.Refs.{
  set_elem, set_field_value, struct_of, array_of, through, array_at, found, load, outside,
  write_field, write_elem, store, store_ref, set_struct_field, set_index_value,
}
use dast_lang.Interp.Store.{◌>>=◌, array_value, struct_value, invalid_reference, ok, err}
use dast_lang.Interp.Machine.{write_object, Store, RefTarget, var_ref, field_ref, index_ref}
use dast_lang.Base.{
  ◌∙◌, refl, inr, zero, inl, sym, ap, Bool-cases, Option-cases, suc, List, arith, String, ℕ, Bool,
  ◌≡◌,
}
use mathlib.Core.Path.{subst}
use dast_lang.Interp.Arith.{lookup_field}
use dast_lang.Ir.Syntax.{Value, int, ref}
use dast_lang.Interp.ConstsHold.{bind-ok, ok-injective}

abbrev pub SameCells : Store → Store → Type 0
SameCells s s' = (s'.cells ≡ s.cells) × (s'.next_cell ≡ s.next_cell)

write_field-SameCells :
    (field : String) (v : Value) (s s' : Store) (o : ℕ × String × List (String × Value))
    → write_field field v s o ≡ ok s'
    → SameCells s s'
write_field-SameCells field v s s' (p, name, fields) e =
    elim (Option-cases (lookup_field field fields)) [
      | inl n ↦ absurd (ground arith)
      | inr (w, n) ↦
          let changed : ok (write_object p (struct_value name (set_field_value field v fields)) s)
              ≡ ok s' =
            ground arith in
          subst (SameCells s) (ok-injective changed) (refl, refl)
    ]

write_elem-SameCells :
    (i : ℕ) (v : Value) (s s' : Store) (o : ℕ × List Value)
    → write_elem i v s o ≡ ok s'
    → SameCells s s'
write_elem-SameCells i v s s' (p, elems) e = elim (Bool-cases (outside i elems)) [
  | inl out ↦ absurd (ground arith)
  | inr inside ↦
      let written : (set_elem elems i v >>= λ w. ok (write_object p (array_value w) s)) ≡ ok s' =
        ground arith in
      let (changed, _, k) = bind-ok (set_elem elems i v) _ written in
      subst (SameCells s) (ok-injective k) (refl, refl)
]

pub set_struct_field-SameCells :
    (s s' : Store) (fuel : ℕ) (v : Value) (field : String) (w : Value)
    → set_struct_field s fuel v field w ≡ ok s'
    → SameCells s s'
unfolding set_struct_field
set_struct_field-SameCells s s' fuel v field w e =
    let (w', g, k) = bind-ok (through (load s fuel) s v) _ e in
    let (o, h, l) = bind-ok (struct_of s w') _ k in write_field-SameCells field w s s' o l

pub set_index_value-SameCells :
    (unchecked : Bool) (s s' : Store) (fuel : ℕ) (base idx v : Value)
    → set_index_value unchecked s fuel base idx v ≡ ok s'
    → SameCells s s'
unfolding set_index_value
set_index_value-SameCells unchecked s s' fuel base (int i t) v e =
    let (o, g, k) = bind-ok (array_at s fuel base) _ e in
    elim (Bool-cases unchecked) [
      | inl t ↦ elim (Bool-cases (outside i o.1)) [
        | inl out ↦ absurd (ground arith)
        | inr in_bounds ↦ write_elem-SameCells i v s s' o (ground arith)
      ]
      | inr f ↦ write_elem-SameCells i v s s' o (ground arith)
    ]
set_index_value-SameCells unchecked s s' fuel base _ v e = absurd (ground arith)

store-next_cell :
    (s s' : Store) (fuel : ℕ) (target : RefTarget) (v : Value)
    → store s fuel target v ≡ ok s'
    → s'.next_cell ≡ s.next_cell
unfolding store
store-next_cell s s' zero target v e = absurd (ground arith)
store-next_cell s s' (suc fuel) (var_ref p) v e = ap (λ z. z.next_cell) (sym (ok-injective e))
store-next_cell s s' (suc fuel) (field_ref base field) v e =
    let (b, g, k) = bind-ok (load s fuel base) _ e in
    let (w, g', k') = bind-ok (through (load s fuel) s b) _ k in
    let (o, g'', k'') = bind-ok (struct_of s w) _ k' in
    let (t, h, l) = bind-ok (write_field field v s o) _ k'' in
    store-next_cell t s' fuel base w l ∙ (write_field-SameCells field v s t o h).1
store-next_cell s s' (suc fuel) (index_ref base i) v e =
    let (b, g, k) = bind-ok (load s fuel base) _ e in
    let (w, g', k') = bind-ok (through (load s fuel) s b) _ k in
    let (o, g'', k'') = bind-ok (array_of s w) _ k' in
    let (t, h, l) = bind-ok (write_elem i v s o) _ k'' in
    store-next_cell t s' fuel base w l ∙ (write_elem-SameCells i v s t o h).1

pub store_ref-next_cell :
    (s s' : Store) (fuel : ℕ) (r v : Value)
    → store_ref s fuel r v ≡ ok s'
    → s'.next_cell ≡ s.next_cell
unfolding store_ref
store_ref-next_cell s s' fuel (ref a) v e =
    let (target, g, k) = bind-ok (found (err invalid_reference) (s.heap a)) _ e in
    store-next_cell s s' fuel target v k
store_ref-next_cell s s' fuel _ v e = absurd (ground arith)
