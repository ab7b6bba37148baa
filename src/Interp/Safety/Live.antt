-- ===== src/Interp/Safety/Live.antt =====
-- The invariant of the store of compiler/stage0/internal/interp/runtime.go that Go's types do not
-- state: a variable, and a reference to one, names a cell that exists. A step is safe when it does
-- not panic and what it returns keeps a condition.
use dast_lang.Base.{
  arith, if◌then◌else◌, refl, ℕ, String, Option, none, some, Bool, true, false, ◌≡◌, ◌<◌, ◌≤◌,
}
use mathlib.Core.Path.{subst}
use dast_lang.Interp.Machine.{RefTarget, var_ref, field_ref, index_ref, Store, Machine}
use dast_lang.Interp.Refs.{found}
use dast_lang.Interp.Store.{Error, panic, Result, ok, err, ◌>>=◌}
use dast_lang.Ir.Syntax.{Value}

abbrev pub NotPanic : Error → Type 0
NotPanic panic = ⊥
NotPanic _ = Unit

abbrev pub Outcome {ℓ} : {A : Type ℓ} → (A → Type 0) → Result A → Type 0
Outcome P (ok a) = P a
Outcome P (err e) = NotPanic e

pub record Safe {ℓ} {A : Type ℓ} (P : A → Type 0) (r : Result A) : Type 0 where
  pub outcome : Outcome P r

abbrev pub Any {ℓ} : {A : Type ℓ} → A → Type 0
Any a = Unit

-- The variable that a target is a part of.
abbrev pub root : RefTarget → ℕ
root (var_ref cell) = cell
root (field_ref base field) = root base
root (index_ref base i) = root base

pub record LiveStore (s : Store) : Type 0 where
  pub cells : (cell : ℕ) → cell < s.next_cell → (v : Value) × (s.cells cell ≡ some v)
  pub heap : (a : ℕ) (target : RefTarget) → s.heap a ≡ some target → root target < s.next_cell

-- A live store that has at least the cells of `s`.
abbrev pub LiveAfter : Store → Store → Type 0
LiveAfter s s' = LiveStore s' × (s.next_cell ≤ s'.next_cell)

pub record LiveMachine (m : Machine) : Type 0 where
  pub store : LiveStore m.store
  pub vars : (x : String) (cell : ℕ) → m.frame.vars x ≡ some cell → cell < m.store.next_cell

module _ {ℓ} {A : Type ℓ} {P : A → Type 0} where
  pub ok-Safe : {a : A} → P a → Safe P (ok a)
  ok-Safe holds = record { outcome = holds }

  pub err-Safe : {e : Error} → NotPanic e → Safe P (err e)
  err-Safe harmless = record { outcome = harmless }

  pub if-Safe :
      {r r' : Result A} (b : Bool)
      → (b ≡ true → Safe P r)
      → (b ≡ false → Safe P r')
      → Safe P (if b then r else r')
  if-Safe true on off = on refl
  if-Safe false on off = off refl

  pub found-Safe :
      (e : Error) (o : Option A)
      → NotPanic e
      → ((a : A) → o ≡ some a → P a)
      → Safe P (found (err e) o)
  found-Safe e none harmless holds = err-Safe harmless
  found-Safe e (some a) harmless holds = ok-Safe (holds a refl)

  pub some-Safe : (e : Error) (o : Option A) (a : A) → o ≡ some a → P a → Safe P (found (err e) o)
  some-Safe e o a there holds = rw there (ok-Safe holds)

  pub option-Safe {κ} :
      {B : Type κ} {r : Result A} {f : B → Result A} (o : Option B)
      → (o ≡ none → Safe P r)
      → ((b : B) → o ≡ some b → Safe P (f b))
      → Safe P (elim o [ none ↦ r | some b ↦ f b ])
  option-Safe none missing there = missing refl
  option-Safe (some b) missing there = there b refl

  pub not_panic-Safe : {r : Result A} → Safe P r → ¬ r ≡ err panic
  not_panic-Safe safe e = (subst (Safe P) e safe).outcome

pub bind-Safe {ℓ κ} :
    {A : Type ℓ} {B : Type κ} {P : A → Type 0} {Q : B → Type 0} {r : Result A} {f : A → Result B}
    → Safe P r
    → ((a : A) → P a → Safe Q (f a))
    → Safe Q (r >>= f)
bind-Safe {r = ok a} safe next = next a safe.outcome
bind-Safe {r = err e} safe next = err-Safe safe.outcome

-- What holds after a later store holds after this one.
pub later-Safe :
    (s s' : Store) {r : Result Store}
    → LiveAfter s s'
    → Safe (LiveAfter s') r
    → Safe (LiveAfter s) r
later-Safe s s' {r = ok t} after safe =
    ok-Safe (safe.outcome.0, omega (arith, after.1, safe.outcome.1))
later-Safe s s' {r = err e} after safe = err-Safe safe.outcome

-- The same, where the source matches on the result.
pub match-Safe {ℓ κ} :
    {A : Type ℓ} {B : Type κ} {P : A → Type 0} {Q : B → Type 0} {r : Result A} {f : A → Result B}
    → Safe P r
    → ((a : A) → P a → Safe Q (f a))
    → Safe Q (elim r [ err e ↦ err e | ok a ↦ f a ])
match-Safe {r = ok a} safe next = next a safe.outcome
match-Safe {r = err e} safe next = err-Safe safe.outcome
