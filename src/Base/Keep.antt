-- ===== src/Base/Keep.antt =====
-- A property holds of a conditional, or of a case on an option, if it holds on each branch.
use mathlib.Core.Path.{◌≡◌, refl}
use mathlib.Core.Bool.{Bool, true, false}
use mathlib.Core.Option.{Option, none, some}
use mcchost.Base.Tests.{if◌then◌else◌}

pub if_keeps {ℓ κ} :
    {A : Type ℓ} (P : A → Type κ) (b : Bool) (x y : A)
    → (b ≡ true → P x)
    → (b ≡ false → P y)
    → P (if b then x else y)
if_keeps P true x y h k = h refl
if_keeps P false x y h k = k refl

pub option_keeps {ℓ κ ι} :
    {A : Type ℓ} {B : Type κ} (P : A → Type ι) (o : Option B) (x : A) (k : B → A)
    → P x
    → ((b : B) → o ≡ some b → P (k b))
    → P (elim o [ none ↦ x | some b ↦ k b ])
option_keeps P none x k h j = h
option_keeps P (some b) x k h j = j b refl
