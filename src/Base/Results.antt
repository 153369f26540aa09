-- ===== src/Base/Results.antt =====
use mathlib.Core.Path.{◌≡◌, ap, ◌∙◌}

-- A call that returns a value or an error.
pub data Result {ℓ κ} (E : Type ℓ) (A : Type κ) : Type (ℓ ⊔ κ) where
  ok : A → Result E A
  err : E → Result E A

infixl 5 ◌>>=◌
abbrev pub ◌>>=◌ {ℓ κ μ} :
    {E : Type ℓ} {A : Type κ} {B : Type μ} → Result E A → (A → Result E B) → Result E B
ok a >>= f = f a
err e >>= f = err e

-- A step that succeeds leaves what follows it.
pub bind_ok {ℓ κ μ} :
    {E : Type ℓ} {A : Type κ} {B : Type μ} (m : Result E A) (f : A → Result E B) {a : A}
    {r : Result E B}
    → m ≡ ok a
    → f a ≡ r
    → (m >>= f) ≡ r
bind_ok m f e h = ap (λ x. x >>= f) e ∙ h

-- What follows a value, or an error.
abbrev pub either {ℓ κ μ} :
    {E : Type ℓ} {A : Type κ} {B : Type μ} → Result E A → (A → B) → (E → B) → B
either (ok a) f g = f a
either (err e) f g = g e

pub either_ok {ℓ κ μ} :
    {E : Type ℓ} {A : Type κ} {B : Type μ} (m : Result E A) (f : A → B) (g : E → B) {a : A}
    → m ≡ ok a
    → either m f g ≡ f a
either_ok m f g e = ap (λ x. either x f g) e

pub either_both {ℓ κ μ ν} :
    {E : Type ℓ} {A : Type κ} {B : Type μ} (P : B → Type ν) (m : Result E A) (f : A → B) (g : E → B)
    → ((a : A) → P (f a))
    → ((e : E) → P (g e))
    → P (either m f g)
either_both P (ok a) f g p q = p a
either_both P (err e) f g p q = q e
