-- ===== src/Interp/ConstsHold.antt =====
-- What the constants of `optimizeBlock` (compiler/stage0/internal/ir/opt.go) say about the machine of
-- compiler/stage0/internal/interp, and the steps of the machine that keep it true.
use dast_lang.Base.{
  inr, sym, inl, zero, [], if◌then◌else◌, ◌∷◌, ◌⊎◌, suc, true, List, ◌==◌, Bool-cases, ◌<◌, Option,
  refl, some, ◌∙◌, String, ap, arith, false, ℕ, ◌≡◌, ◌≤◌,
}
use mathlib.Core.Path.{subst}
use dast_lang.Ir.BlockPass.{set_temp as set_known, Consts, forget_vars}
use dast_lang.Interp.Machine.{set_temp, Store, Machine, get_temp, put_temp}
use dast_lang.Interp.Arith.{is_unsigned_int_name}
use dast_lang.Interp.Exec.{with_store}
use dast_lang.Interp.Store.{Result, ok, err, ◌>>=◌}
use dast_lang.Ir.Syntax.{Value, int, Operand, temp, const}

-- An integer of a type that `foldBinary` and `evalBinary` both read as signed.
abbrev pub Signed : Value → Type 0
Signed (int n t) = is_unsigned_int_name t ≡ false
Signed _ = Unit

abbrev pub SignedOperand : Operand → Type 0
SignedOperand (const v) = Signed v
SignedOperand (temp t) = Unit

-- Variables have cells of their own, which are in use.
pub record OwnsCells (m : Machine) : Type 0 where
  pub apart :
      (x y : String) (cell : ℕ) → m.frame.vars x ≡ some cell → m.frame.vars y ≡ some cell → x ≡ y
  pub taken : (x : String) (cell : ℕ) → m.frame.vars x ≡ some cell → cell < m.store.next_cell

-- The known constants are what the machine holds.
pub record ConstsHold (c : Consts) (m : Machine) : Type 0 where
  pub owns : OwnsCells m
  pub temps :
      (t : ℕ) (v : Value) → c.temps t ≡ some v → (get_temp m.frame.temps t ≡ ok v) × Signed v
  pub vars :
      (x : String) (v : Value)
      → c.vars x ≡ some v
      → (cell : ℕ) × (m.frame.vars x ≡ some cell) × (m.store.cells cell ≡ some v) × Signed v

pub ok-injective {ℓ} : {A : Type ℓ} {a b : A} → ok a ≡ ok b → a ≡ b
ok-injective e = cc

pub bind-ok {ℓ κ} :
    {A : Type ℓ} {B : Type κ} (r : Result A) (f : A → Result B) {b : B}
    → (r >>= f) ≡ ok b
    → (a : A) × (r ≡ ok a) × (f a ≡ ok b)
bind-ok (ok a) f e = (a, refl, e)
bind-ok (err x) f e = absurd (ground arith)

get_temp-set_temp_same :
    (temps : List Value) (t : ℕ) (v : Value) → get_temp (set_temp temps t v) t ≡ ok v
unfolding set_temp
get_temp-set_temp_same [] zero v = refl
get_temp-set_temp_same [] (suc t) v = get_temp-set_temp_same [] t v
get_temp-set_temp_same (w ∷ temps) zero v = refl
get_temp-set_temp_same (w ∷ temps) (suc t) v = get_temp-set_temp_same temps t v

get_temp-set_temp_other :
    (temps : List Value) (t u : ℕ) (v w : Value)
    → ¬ u ≡ t
    → get_temp temps u ≡ ok w
    → get_temp (set_temp temps t v) u ≡ ok w
unfolding set_temp
get_temp-set_temp_other (x ∷ temps) zero zero v w n e = absurd (n refl)
get_temp-set_temp_other (x ∷ temps) zero (suc u) v w n e = e
get_temp-set_temp_other (x ∷ temps) (suc t) zero v w n e = e
get_temp-set_temp_other (x ∷ temps) (suc t) (suc u) v w n e =
    get_temp-set_temp_other temps t u v w (λ h. n (ap suc h)) e
get_temp-set_temp_other [] t u v w n e = absurd (ground arith)

-- Of a temp that is set, nothing is known or its new value.
pub put_temp-ConstsHold :
    {c : Consts} {m : Machine} (t : ℕ) (known : Option Value) (v : Value)
    → ConstsHold c m
    → ((w : Value) → known ≡ some w → (v ≡ w) × Signed w)
    → ConstsHold (set_known t known c) (put_temp t v m)
put_temp-ConstsHold {c = c} {m = m} t known v h k = record {
  owns = record { apart = h.owns.apart; taken = h.owns.taken };
  temps = λ u w e. temp_at u w (Bool-cases (u == t)) e;
  vars = h.vars;
}
  where
    temp_at :
        (u : ℕ) (w : Value)
        → ((u == t) ≡ true) ⊎ ((u == t) ≡ false)
        → (if u == t then known else c.temps u) ≡ some w
        → (get_temp (set_temp m.frame.temps t v) u ≡ ok w) × Signed w
    temp_at u w (inl same) e =
        let known_w : known ≡ some w = ground arith in
        let at : u ≡ t = ground arith in
        (
          subst (λ z. get_temp (set_temp m.frame.temps t v) z ≡ ok w) (sym at)
              (get_temp-set_temp_same m.frame.temps t v ∙ ap ok (k w known_w).0),
          (k w known_w).1,
        )
    temp_at u w (inr other) e =
        let (holds, signed) = h.temps u w (ground arith) in
        (get_temp-set_temp_other m.frame.temps t u v w (ground arith) holds, signed)

-- A change of the store that keeps the cells, and may take new ones.
pub with_store-ConstsHold :
    {c : Consts} {m : Machine} (s : Store)
    → ConstsHold c m
    → s.cells ≡ m.store.cells
    → m.store.next_cell ≤ s.next_cell
    → ConstsHold c (with_store m s)
with_store-ConstsHold {c = c} {m = m} s h e le = record {
  owns = record { apart = h.owns.apart; taken = λ x cell k. omega (arith, h.owns.taken x cell k) };
  temps = h.temps;
  vars = λ x v k.
      let (cell, found, holds, signed) = h.vars x v k in
      (cell, found, ap (λ f. f cell) e ∙ holds, signed);
}

-- Any other change, where the variables are forgotten.
pub forget_vars-ConstsHold :
    {c : Consts} {m : Machine} (s : Store)
    → ConstsHold c m
    → m.store.next_cell ≤ s.next_cell
    → ConstsHold (forget_vars c) (with_store m s)
forget_vars-ConstsHold {m = m} s h le = record {
  owns = record { apart = h.owns.apart; taken = λ x cell k. omega (arith, h.owns.taken x cell k) };
  temps = h.temps;
  vars = λ x v k. absurd (ground arith);
}
