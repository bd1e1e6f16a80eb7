-- ===== src/Prelude/Panics.antt =====
-- A Go call that may panic. The loops and handlers that can panic are `do` blocks over it.
use mathlib.Core.Path.{◌≡◌, refl}
use mathlib.Core.Logic.{◌≢◌, ◌⊎◌, inl, inr}
use mathlib.Core.Option.{Option, none, some}

pub data Outcome {ℓ} (A : Type ℓ) : Type ℓ where
  ok : A → Outcome A
  panic : Outcome A

infixl 5 ◌>>=◌
abbrev pub ◌>>=◌ {ℓ κ} : {A : Type ℓ} {B : Type κ} → Outcome A → (A → Outcome B) → Outcome B
panic >>= next = panic
ok value >>= next = next value

-- An index expression `s[i]`: out of range it panics.
abbrev pub indexed {ℓ} : {A : Type ℓ} → Option A → Outcome A
indexed none = panic
indexed (some a) = ok a

-- Inversion of a bind that did not panic.
pub >>=-eq-ok {ℓ κ} :
    {A : Type ℓ} {B : Type κ} (first : Outcome A) (next : A → Outcome B) {result : B}
    → (first >>= next) ≡ ok result
    → (middle : A) × (first ≡ ok middle) × (next middle ≡ ok result)
>>=-eq-ok panic next h = cc
>>=-eq-ok (ok middle) next h = (middle, refl, h)

pub ok_of_ne_panic {ℓ} : {A : Type ℓ} (m : Outcome A) → m ≢ panic → (a : A) × (m ≡ ok a)
ok_of_ne_panic (ok a) h = (a, refl)
ok_of_ne_panic panic h = absurd (h refl)

pub ok-injective {ℓ} : {A : Type ℓ} {a b : A} → ok a ≡ ok b → a ≡ b
ok-injective h = cc

pub Outcome-cases {ℓ} : {A : Type ℓ} (m : Outcome A) → (m ≡ panic) ⊎ ((a : A) × (m ≡ ok a))
Outcome-cases panic = inl refl
Outcome-cases (ok a) = inr (a, refl)
