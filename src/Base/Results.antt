-- ===== src/Base/Results.antt =====
-- What a fallible Go function returns: its value, or the error that it reports instead.
use mathlib.Core.Path.{◌≡◌, refl}

pub data Outcome {κ ℓ} (E : Type κ) (A : Type ℓ) : Type (κ ⊔ ℓ) where
  ok : A → Outcome E A
  failed : E → Outcome E A

infixl 5 ◌>>=◌
-- `if err != nil { return err }` behind a call.
abbrev pub ◌>>=◌ {κ ℓ ι} :
    {E : Type κ} {A : Type ℓ} {B : Type ι} → Outcome E A → (A → Outcome E B) → Outcome E B
failed why >>= next = failed why
ok x >>= next = next x

pub >>=-eq-ok {κ ℓ ι} :
    {E : Type κ} {A : Type ℓ} {B : Type ι} (call : Outcome E A) (next : A → Outcome E B) {y : B}
    → (call >>= next) ≡ ok y
    → (x : A) × (call ≡ ok x) × (next x ≡ ok y)
>>=-eq-ok (failed why) next h = absurd (cc)
>>=-eq-ok (ok x) next h = (x, refl, h)
