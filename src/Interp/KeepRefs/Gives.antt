-- ===== src/Interp/KeepRefs/Gives.antt =====
-- The references of a frame: what the instructions of compiler/stage0/internal/interp/instr.go and
-- `freeFrame` of runtime.go do to the addresses that were there before.
use dast_lang.Base.{◌≡◌, refl, Bool, true, false, Option, none, some, if◌then◌else◌}
use dast_lang.Interp.Store.{Result, ok, err, ◌>>=◌}

-- What a result holds if it is no error.
abbrev pub Outcome {ℓ} : {A : Type ℓ} → (A → Type 0) → Result A → Type 0
Outcome P (ok a) = P a
Outcome P (err e) = Unit

pub record Gives {ℓ} {A : Type ℓ} (P : A → Type 0) (r : Result A) : Type 0 where
  pub outcome : Outcome P r

module _ {ℓ} {A : Type ℓ} {P : A → Type 0} where
  pub ok-Gives : {a : A} → P a → Gives P (ok a)
  ok-Gives holds = record { outcome = holds }

  pub if-Gives :
      {r r' : Result A} (b : Bool) → Gives P r → Gives P r' → Gives P (if b then r else r')
  if-Gives true on off = on
  if-Gives false on off = off

  pub option-Gives {κ} :
      {B : Type κ} {r : Result A} {f : B → Result A} (o : Option B)
      → Gives P r
      → ((b : B) → o ≡ some b → Gives P (f b))
      → Gives P (elim o [ none ↦ r | some b ↦ f b ])
  option-Gives none missing there = missing
  option-Gives (some b) missing there = there b refl

  pub then-Gives {κ} :
      {B : Type κ} (r : Result B) {f : B → Result A} → ((b : B) → Gives P (f b)) → Gives P (r >>= f)
  then-Gives (ok b) next = next b
  then-Gives (err e) next = record { outcome = tt }

  pub bind-Gives {κ} :
      {B : Type κ} {Q : B → Type 0} {r : Result B} {f : B → Result A}
      → Gives Q r
      → ((b : B) → Q b → Gives P (f b))
      → Gives P (r >>= f)
  bind-Gives {r = ok b} given next = next b given.outcome
  bind-Gives {r = err e} given next = record { outcome = tt }

  pub match-Gives {κ} :
      {B : Type κ} {Q : B → Type 0} {r : Result B} {f : B → Result A}
      → Gives Q r
      → ((b : B) → Q b → Gives P (f b))
      → Gives P (elim r [ err e ↦ err e | ok b ↦ f b ])
  match-Gives {r = ok b} given next = next b given.outcome
  match-Gives {r = err e} given next = record { outcome = tt }
