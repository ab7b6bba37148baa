-- ===== src/Interp/KeepRefs/Frames.antt =====
-- The references that a frame may free are its own: the addresses of its variables, which it has
-- allocated since it was entered (compiler/stage0/internal/interp/instr.go).
use dast_lang.Base.{
  ℕ, zero, suc, String, Bool, true, false, Option, none, some, List, ◌≡◌, refl, ◌<◌, ◌≤◌, ◌∙◌, All,
  arith,
}
use dast_lang.Interp.Store.{Result, ok, err, Object, invalid_reference}
use dast_lang.Interp.KeepRefs.Gives.{
  Gives, ok-Gives, option-Gives, then-Gives, bind-Gives, if-Gives,
}
use dast_lang.Interp.Machine.{
  Store, Machine, alloc_ref, RefTarget, var_ref, field_ref, index_ref, put_temp, new_object,
}
use dast_lang.Interp.Refs.{
  load, store, store_ref, through, struct_of, array_of, write_field, write_elem, set_elem,
  set_struct_field, set_index_value, array_at, outside, found,
}
use dast_lang.Interp.Exec.{with_store, load_addr_at, store_name, put_result, put_ref}
use dast_lang.Interp.Arith.{lookup_field}
use dast_lang.Ir.Syntax.{Value, int, ref}

-- The second store has all references of the first as they were.
abbrev pub KeepsRefs : Store → Store → Type 0
KeepsRefs s s' = (s.next_addr ≤ s'.next_addr) × ((a : ℕ) → a < s.next_addr → s'.heap a ≡ s.heap a)

pub KeepsRefs-trans : (s t u : Store) → KeepsRefs s t → KeepsRefs t u → KeepsRefs s u
KeepsRefs-trans s t u (le, kept) (le', kept') =
    (omega (arith, le, le'), λ a below. kept' a (omega (arith, below, le)) ∙ kept a below)

abbrev pub SameRefs : Store → Store → Type 0
SameRefs s s' = (s'.heap ≡ s.heap) × (s'.next_addr ≡ s.next_addr)

pub SameRefs-KeepsRefs : (s s' : Store) → SameRefs s s' → KeepsRefs s s'
SameRefs-KeepsRefs s s' (heap, next) = (omega (arith, next), λ a below i. heap i a)

pub alloc_ref-KeepsRefs : (target : RefTarget) (s : Store) → KeepsRefs s (alloc_ref target s).1
unfolding alloc_ref
alloc_ref-KeepsRefs target s = (omega arith, λ a below. ground arith)

write_field-SameRefs :
    (field : String) (v : Value) (s : Store) (o : ℕ × String × List (String × Value))
    → Gives (SameRefs s) (write_field field v s o)
write_field-SameRefs field v s (p, name, fields) =
    option-Gives (lookup_field field fields) (record { outcome = tt })
      (λ _ _. ok-Gives (refl, refl))

write_elem-SameRefs :
    (i : ℕ) (v : Value) (s : Store) (o : ℕ × List Value) → Gives (SameRefs s) (write_elem i v s o)
write_elem-SameRefs i v s (p, elems) =
    if-Gives (outside i elems) (record { outcome = tt })
      (then-Gives (set_elem elems i v) (λ _. ok-Gives (refl, refl)))

after_write :
    (s s' : Store) (r : Result Store) → SameRefs s s' → Gives (SameRefs s') r → Gives (SameRefs s) r
after_write s s' (ok t) (heap, next) given =
    ok-Gives (given.outcome.0 ∙ heap, given.outcome.1 ∙ next)
after_write s s' (err e) same given = record { outcome = tt }

-- A store through a reference changes no reference.
store-SameRefs :
    (s : Store) (fuel : ℕ) (target : RefTarget) (v : Value)
    → Gives (SameRefs s) (store s fuel target v)
unfolding store
store-SameRefs s zero target v = record { outcome = tt }
store-SameRefs s (suc fuel) (var_ref p) v = ok-Gives (refl, refl)
store-SameRefs s (suc fuel) (field_ref base field) v = then-Gives (load s fuel base) (λ b.
    then-Gives (through (load s fuel) s b) (λ w. then-Gives (struct_of s w) (λ o.
      bind-Gives (write_field-SameRefs field v s o)
        (λ s' same. after_write s s' _ same (store-SameRefs s' fuel base w)))))
store-SameRefs s (suc fuel) (index_ref base i) v = then-Gives (load s fuel base) (λ b.
    then-Gives (through (load s fuel) s b) (λ w. then-Gives (array_of s w) (λ o.
      bind-Gives (write_elem-SameRefs i v s o)
        (λ s' same. after_write s s' _ same (store-SameRefs s' fuel base w)))))

module _ (s : Store) (fuel : ℕ) where
  pub store_ref-SameRefs : (r v : Value) → Gives (SameRefs s) (store_ref s fuel r v)
  unfolding store_ref
  store_ref-SameRefs (ref a) v =
      then-Gives (found (err invalid_reference) (s.heap a)) (λ t. store-SameRefs s fuel t v)
  store_ref-SameRefs _ v = record { outcome = tt }

  pub set_struct_field-SameRefs :
      (v : Value) (field : String) (w : Value)
      → Gives (SameRefs s) (set_struct_field s fuel v field w)
  unfolding set_struct_field
  set_struct_field-SameRefs v field w =
      then-Gives (through (load s fuel) s v)
        (λ u. then-Gives (struct_of s u) (λ o. write_field-SameRefs field w s o))

  pub set_index_value-SameRefs :
      (unchecked : Bool) (base idx v : Value)
      → Gives (SameRefs s) (set_index_value unchecked s fuel base idx v)
  unfolding set_index_value
  set_index_value-SameRefs true base (int i t) v =
      then-Gives (array_at s fuel base)
        (λ o. if-Gives (outside i o.1) (record { outcome = tt }) (write_elem-SameRefs i v s o))
  set_index_value-SameRefs false base (int i t) v =
      then-Gives (array_at s fuel base) (λ o. write_elem-SameRefs i v s o)
  set_index_value-SameRefs unchecked base _ v = record { outcome = tt }

-- A machine whose frame was entered at the store `s`, with what it may free.
pub record Entered (s : Store) (m : Machine) : Type 0 where
  pub kept : KeepsRefs s m.store
  pub own : All (λ (x : String × ℕ). s.next_addr ≤ x.1) m.frame.var_addrs

module _ (s : Store) (m : Machine) (e : Entered s m) where
  pub put_temp-Entered : (t : ℕ) (v : Value) → Entered s (put_temp t v m)
  put_temp-Entered t v = record { kept = e.kept; own = e.own }

  pub with_store-Entered : (s' : Store) → KeepsRefs m.store s' → Entered s (with_store m s')
  with_store-Entered s' kept = record {
    kept = KeepsRefs-trans s m.store s' e.kept kept;
    own = e.own;
  }

  pub new_object-Entered :
      (dst : ℕ) (o : Object) (v : Value)
      → Entered s (put_temp dst v (with_store m (new_object o m.store).1))
  new_object-Entered dst o v = record { kept = e.kept; own = e.own }

  pub put_ref-Entered : (dst : ℕ) (target : RefTarget) → Entered s (put_ref dst target m)
  unfolding alloc_ref
  put_ref-Entered dst target = record {
    kept =
        KeepsRefs-trans s m.store (alloc_ref target m.store).1 e.kept
          (alloc_ref-KeepsRefs target m.store);
    own = e.own;
  }

  pub put_result-Entered :
      (dst : Option ℕ) (res : Value × Store)
      → KeepsRefs m.store res.1
      → Entered s (put_result dst m res)
  put_result-Entered none (v, s') kept = with_store-Entered s' kept
  put_result-Entered (some dst) (v, s') kept = record {
    kept = KeepsRefs-trans s m.store s' e.kept kept;
    own = e.own;
  }

  pub store_name-Entered :
      (name : String) (v : Value) (cell : Option ℕ) → Entered s (store_name name v m cell)
  store_name-Entered name v (some cell) = record { kept = e.kept; own = e.own }
  store_name-Entered name v none = record { kept = e.kept; own = e.own }

  -- The address of a variable that has none is new, and the frame's own.
  pub load_addr_at-Entered :
      (dst : ℕ) (name : String) (cell : ℕ) (addr : Option ℕ)
      → Gives (Entered s) (load_addr_at dst name cell m addr)
  unfolding alloc_ref
  load_addr_at-Entered dst name cell (some addr) = ok-Gives (put_temp-Entered dst (ref addr))
  load_addr_at-Entered dst name cell none = ok-Gives (record {
    kept =
        KeepsRefs-trans s m.store (alloc_ref (var_ref cell) m.store).1 e.kept
          (alloc_ref-KeepsRefs (var_ref cell) m.store);
    own = (e.kept.0, e.own);
  })
