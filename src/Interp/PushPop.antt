-- ===== src/Interp/PushPop.antt =====
-- `builtinPush` and `builtinPop` of compiler/stage0/internal/interp/eval.go: what they do to the array
-- and to the references into it.
use mathlib.Core.Path.{subst, fun_ext}
use dast_lang.Base.{
  true, Option-cases, ℕ, zero, suc, String, some, List, [], ◌∷◌, ◌++◌, ◌≡◌, refl, ap, ◌∙◌, sym, inl,
  inr, arith, Bool-cases, ◌==◌, ==_iff, length-append, get_elem?,
}
use dast_lang.Interp.Refs.{
  array_at, load, through, struct_of, array_of, read_elem, found, outside, object_array,
}
use dast_lang.Interp.Builtins.{builtin_pop, builtin_push, set_elems, split_last}
use dast_lang.Interp.ConstsHold.{ok-injective, bind-ok}
use dast_lang.Interp.Machine.{Store, RefTarget, var_ref, field_ref, index_ref}
use dast_lang.Interp.Store.{array_value, Result, ok, err, ◌>>=◌, invalid_reference}
use dast_lang.Ir.Syntax.{Value, ref, struct, array}

split_last-append :
    (elems : List Value) (v : Value) → split_last (elems ++ v ∷ []) ≡ some (v, elems)
split_last-append [] v = refl
split_last-append (w ∷ elems) v = rw (split_last-append elems v) refl

get_elem?-append :
    (elems : List Value) (v w : Value) (i : ℕ)
    → get_elem? elems i ≡ some w
    → get_elem? (elems ++ v ∷ []) i ≡ some w
get_elem?-append [] v w i e = absurd (ground arith)
get_elem?-append (x ∷ elems) v w zero e = e
get_elem?-append (x ∷ elems) v w (suc i) e = get_elem?-append elems v w i e

-- An element is read behind a push where it was.
read_elem-append :
    (i p : ℕ) (elems : List Value) (v : Value) {w : Value}
    → read_elem i (p, elems) ≡ ok w
    → read_elem i (p, elems ++ v ∷ []) ≡ ok w
read_elem-append i p elems v e = elim (Bool-cases (outside i elems)) [
  | inl out ↦ absurd (ground arith)
  | inr inside ↦ elim (Option-cases (get_elem? elems i)) [
    | inl n ↦ absurd (ground arith)
    | inr (x, g) ↦ ground (arith, get_elem?-append elems v x i g, length-append elems (v ∷ []))
  ]
]

module _ (s : Store) (p : ℕ) (elems : List Value) (v : Value)
    (here : s.objects p ≡ some (array_value elems)) where
  abbrev pushed : Store
  pushed = set_elems p (elems ++ v ∷ []) s

  struct_of-pushed :
      (w : Value) {o : ℕ × String × List (String × Value)}
      → struct_of s w ≡ ok o
      → struct_of pushed w ≡ ok o
  struct_of-pushed (struct (some q)) e = elim (Bool-cases (q == p)) [
    | inl t ↦ absurd (ground (arith, ==_iff q p))
    | inr f ↦ rw f e
  ]
  struct_of-pushed _ e = absurd (ground arith)

  read_pushed :
      (w : Value) (i : ℕ) {x : Value}
      → (array_of s w >>= read_elem i) ≡ ok x
      → (array_of pushed w >>= read_elem i) ≡ ok x
  read_pushed (array (some q)) i e = elim (Bool-cases (q == p)) [
    | inl t ↦
        let at : q ≡ p = ground (arith, ==_iff q p) in
        let old = ap (λ o. object_array q o >>= read_elem i) (sym (ap s.objects at ∙ here)) ∙ e in
        rw t (read_elem-append i q elems v old)
    | inr f ↦ rw f e
  ]
  read_pushed _ i e = absurd (ground arith)

  through-pushed :
      (l l' : RefTarget → Result Value) (w : Value) {x : Value}
      → ((t : RefTarget) (y : Value) → l t ≡ ok y → l' t ≡ ok y)
      → through l s w ≡ ok x
      → through l' pushed w ≡ ok x
  through-pushed l l' (ref a) k e =
      let (t, g, h) = bind-ok (found (err invalid_reference) (s.heap a)) _ e in rw g (k t _ h)
  through-pushed l l' _ k e = e

  -- What a reference leads to it leads to behind a push.
  load-pushed :
      (fuel : ℕ) (target : RefTarget) (x : Value)
      → load s fuel target ≡ ok x
      → load pushed fuel target ≡ ok x
  unfolding load
  load-pushed zero target x e = absurd (ground arith)
  load-pushed (suc fuel) (var_ref q) x e = e
  load-pushed (suc fuel) (field_ref base field) x e =
      let (b, g, k) = bind-ok (load s fuel base) _ e in
      let (w, g', k') = bind-ok (through (load s fuel) s b) _ k in
      let (o, g'', k'') = bind-ok (struct_of s w) _ k' in
      rw
        (
          load-pushed fuel base b g,
          through-pushed (load s fuel) (load pushed fuel) b (load-pushed fuel) g',
          struct_of-pushed w g'',
        )
        k''
  load-pushed (suc fuel) (index_ref base i) x e =
      let (b, g, k) = bind-ok (load s fuel base) _ e in
      let (w, g', k') = bind-ok (through (load s fuel) s b) _ k in
      rw
        (
          load-pushed fuel base b g,
          through-pushed (load s fuel) (load pushed fuel) b (load-pushed fuel) g',
        )
        (read_pushed w i k')

array_of-objects :
    (s : Store) (w : Value) (p : ℕ) (elems : List Value)
    → array_of s w ≡ ok (p, elems)
    → (w ≡ array (some p)) × (s.objects p ≡ some (array_value elems))
array_of-objects s (array (some q)) p elems e = elim (Option-cases (s.objects q)) [
  | inl n ↦ absurd (ground arith)
  | inr (array_value els, n) ↦
      let same : ◌≡◌ {A = Result (ℕ × List Value)} (ok (q, els)) (ok (p, elems)) =
        ap (object_array q) (sym n) ∙ e in
      let q_p : q ≡ p = ap (λ o. o.0) (ok-injective same) in
      (
        ap (λ z. array (some z)) q_p,
        ap s.objects (sym q_p) ∙ n ∙ ap (λ o. some (array_value (o.1))) (ok-injective same),
      )
  | inr (object, n) ↦ absurd (ground arith)
]
array_of-objects s _ p elems e = absurd (ground arith)

-- Elements that are put back leave the store as it was.
set_elems-restores :
    (s : Store) (p : ℕ) (elems new : List Value)
    → s.objects p ≡ some (array_value elems)
    → set_elems p elems (set_elems p new s) ≡ s
set_elems-restores s p elems new here =
    ap (λ f. record s { objects = f })
      (fun_ext (λ q. elim (Bool-cases (q == p)) [
        | inl t ↦
            let at : q ≡ p = ground (arith, ==_iff q p) in rw t (sym here ∙ ap s.objects (sym at))
        | inr f ↦ rw f refl
      ]))

-- After a push that succeeds, a pop through the same reference returns the value and the store of
-- before, whatever the reference goes through and whatever else holds the array.
pub builtin_pop-builtin_push :
    (fuel a : ℕ) (v u : Value) (s s' : Store)
    → builtin_push fuel (ref a ∷ v ∷ []) s ≡ ok (u, s')
    → builtin_pop fuel (ref a ∷ []) s' ≡ ok (v, s)
unfolding builtin_push builtin_pop array_at
builtin_pop-builtin_push fuel a v u s s' e =
    let ((p, elems), g, k) = bind-ok (array_at s fuel (ref a)) _ e in
    let (w, h, l) = bind-ok (through (load s fuel) s (ref a)) _ g in
    let (is_array, here) = array_of-objects s w p elems l in
    let new = set_elems p (elems ++ v ∷ []) s in
    let again =
      through-pushed s p elems v here (load s fuel) (load new fuel) (ref a)
        (load-pushed s p elems v here fuel) h in
    let self : (p == p) ≡ true = ground (arith, ==_iff p p) in
    let popped : builtin_pop fuel (ref a ∷ []) new ≡ ok (v, s) =
      rw (again ∙ ap ok is_array, self, split_last-append elems v)
        (ap (λ t. ok (v, t)) (set_elems-restores s p elems (elems ++ v ∷ []) here)) in
    subst (λ t. builtin_pop fuel (ref a ∷ []) t ≡ ok (v, s)) (ap (λ r. r.1) (ok-injective k)) popped
