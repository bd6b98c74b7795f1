-- ===== src/Base/Chain.antt =====
-- Chains of steps that may not return.
use mathlib.Core.Option.{Option, none, some}
use mathlib.Core.Path.{◌≡◌, refl}
use mathlib.Core.Bool.{Bool, true, false}
use advanced_embedded_softwa.Base.{if◌then◌else◌}

infixl 5 ◌>>=◌
abbrev pub ◌>>=◌ {ℓ κ} : {A : Type ℓ} {B : Type κ} → Option A → (A → Option B) → Option B
none >>= f = none
some a >>= f = f a

-- A property of a test's outcome, and of a chain's, by what either side has of it.
pub if_cases {ℓ κ} :
    {A : Type ℓ} (P : A → Type κ) (b : Bool) {x y : A}
    → (b ≡ true → P x)
    → (b ≡ false → P y)
    → P (if b then x else y)
if_cases P true px py = px refl
if_cases P false px py = py refl

pub bind_cases {ℓ κ μ} :
    {A : Type ℓ} {B : Type κ} (P : Option B → Type μ) (m : Option A) (f : A → Option B)
    → P none
    → ((a : A) → m ≡ some a → P (f a))
    → P (m >>= f)
bind_cases P none f pn ps = pn
bind_cases P (some a) f pn ps = ps a refl
