-- ===== src/LinuxChat/Outcome.antt =====
-- How a call in LinuxChat/ ends.
use network_code.Base.{◌≡◌, refl, Option, none, some}

-- It returns, it waits for ever as things stand, or the process is lost: by an access outside an
-- array or through a null pointer, an uncaught exception or a failed `assert`.
pub data Outcome {ℓ} (A : Type ℓ) : Type ℓ where
  returned : A → Outcome A
  waits : Outcome A
  lost : Outcome A

infixl 5 ◌>>=◌
abbrev pub ◌>>=◌ {ℓ κ} : {A : Type ℓ} {B : Type κ} → Outcome A → (A → Outcome B) → Outcome B
returned a >>= f = f a
waits >>= f = waits
lost >>= f = lost

abbrev pub or_waits {ℓ} : {A : Type ℓ} → Option A → Outcome A
or_waits none = waits
or_waits (some a) = returned a

abbrev pub or_lost {ℓ} : {A : Type ℓ} → Option A → Outcome A
or_lost none = lost
or_lost (some a) = returned a

pub bind-returned {ℓ κ} :
    {A : Type ℓ} {B : Type κ} (o : Outcome A) (f : A → Outcome B) {b : B}
    → (o >>= f) ≡ returned b
    → (a : A) × (o ≡ returned a) × (f a ≡ returned b)
bind-returned (returned a) f e = (a, refl, e)
bind-returned waits f e = absurd (cc)
bind-returned lost f e = absurd (cc)

pub or_waits-returned {ℓ} :
    {A : Type ℓ} (o : Option A) {a : A} → or_waits o ≡ returned a → o ≡ some a
or_waits-returned none e = absurd (cc)
or_waits-returned (some a) e = cc

pub or_lost-returned {ℓ} : {A : Type ℓ} (o : Option A) {a : A} → or_lost o ≡ returned a → o ≡ some a
or_lost-returned none e = absurd (cc)
or_lost-returned (some a) e = cc

pub returned-inj {ℓ} : {A : Type ℓ} {a b : A} → returned a ≡ returned b → a ≡ b
returned-inj e = cc
