-- ===== src/Base/Tests.antt =====
-- Boolean tests on the native numbers, the conditional, and splits that keep an equation.
use mathlib.Core.Bool.{and-eq-true_iff, ◌&&◌}
use Prim.Native.Nat.{ℕ, compare, Ordering}
use mathlib.Core.Path.{◌≡◌, refl}
use mathlib.Core.Logic.{◌↔◌, ◌⊎◌, inl, inr}
use mathlib.Core.Bool.{Bool, true, false}
use mathlib.Core.Option.{Option, none, some}
use native.Mathlib.Omega.{arith}

abbrev pub ltb : ℕ → ℕ → Bool
ltb a b = elim (compare a b) [ Ordering.lt ↦ true | _ ↦ false ]

abbrev pub leb : ℕ → ℕ → Bool
leb a b = elim (compare a b) [ Ordering.gt ↦ false | _ ↦ true ]

infix 50 ◌==◌
abbrev pub ◌==◌ : ℕ → ℕ → Bool
a == b = elim (compare a b) [ Ordering.eq ↦ true | _ ↦ false ]

infix 1 if◌then◌else◌
abbrev pub if◌then◌else◌ {ℓ} : {A : Type ℓ} → Bool → A → A → A
if true then x else y = x
if false then x else y = y

pub ==_iff : (a b : ℕ) → ((a == b) ≡ true) ↔ (a ≡ b)
==_iff a b = ground arith

pub Bool-cases : (b : Bool) → (b ≡ true) ⊎ (b ≡ false)
Bool-cases true = inl refl
Bool-cases false = inr refl

pub Option-cases {ℓ} : {A : Type ℓ} (o : Option A) → (o ≡ none) ⊎ ((a : A) × (o ≡ some a))
Option-cases none = inl refl
Option-cases (some a) = inr (a, refl)

-- The parts of a conjunction of tests that holds.
pub both : {a b : Bool} → (a && b) ≡ true → (a ≡ true) × (b ≡ true)
both {a} {b} h = (and-eq-true_iff a b).0 h

pub all_three : {a b c : Bool} → (a && b && c) ≡ true → (a ≡ true) × (b ≡ true) × (c ≡ true)
all_three h = let (p, r) = both h in let (s, t) = both p in (s, t, r)

pub all_four :
    {a b c d : Bool} → (a && b && c && d) ≡ true → (a ≡ true) × (b ≡ true) × (c ≡ true) × (d ≡ true)
all_four h = let (p, q, r) = all_three h in let (s, t) = both p in (s, t, q, r)

pub all_six :
    {a b c d e f : Bool}
    → (a && b && c && d && e && f) ≡ true
    → (a ≡ true) × (b ≡ true) × (c ≡ true) × (d ≡ true) × (e ≡ true) × (f ≡ true)
all_six h = let (p, q, r) = all_three h in let (s, t, u, v) = all_four p in (s, t, u, v, q, r)

pub all_five :
    {a b c d e : Bool}
    → (a && b && c && d && e) ≡ true
    → (a ≡ true) × (b ≡ true) × (c ≡ true) × (d ≡ true) × (e ≡ true)
all_five h = let (p, q, r) = all_three h in let (s, t, u) = all_three p in (s, t, u, q, r)

pub all_seven :
    {a b c d e f g : Bool}
    → (a && b && c && d && e && f && g) ≡ true
    → (a ≡ true) × (b ≡ true) × (c ≡ true) × (d ≡ true) × (e ≡ true) × (f ≡ true) × (g ≡ true)
all_seven h =
    let (p, q, r) = all_three h in let (s, t, u, v, w) = all_five p in (s, t, u, v, w, q, r)

-- What holds of both branches holds of a test.
pub if_holds {ℓ κ} :
    {A : Type ℓ} (P : A → Type κ) (b : Bool) (x y : A) → P x → P y → P (if b then x else y)
if_holds P true x y p q = p
if_holds P false x y p q = q

-- What holds of both branches holds of a match.
pub option_holds {ℓ κ μ} :
    {A : Type ℓ} {B : Type κ} (P : A → Type μ) (o : Option B) (x : A) (f : B → A)
    → (o ≡ none → P x)
    → ((b : B) → o ≡ some b → P (f b))
    → P (elim o [ none ↦ x | some b ↦ f b ])
option_holds P none x f missing there = missing refl
option_holds P (some b) x f missing there = there b refl

-- A condition that counts where a flag is set.
abbrev pub When : Bool → Type 0 → Type 0
When true P = P
When false P = Unit
