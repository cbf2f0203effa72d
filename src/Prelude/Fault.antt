-- ===== src/Prelude/Fault.antt =====
-- Code that C++ may leave undefined: `undef` is undefined behaviour, such as `back()` of an empty
-- list, an invalid iterator or a signed overflow.
use mathlib.Core.Path.{◌≡◌, refl}
use mathlib.Core.Logic.{◌⊎◌, inl, inr}

pub data Outcome {ℓ} (A : Type ℓ) : Type ℓ where
  ok : A → Outcome A
  undef : Outcome A

infixl 5 ◌>>=◌
abbrev pub ◌>>=◌ {ℓ κ} : {A : Type ℓ} {C : Type κ} → Outcome A → (A → Outcome C) → Outcome C
undef >>= next = undef
ok a >>= next = next a

-- A sequence that ends has a first part that ends.
pub >>=-eq-ok {ℓ κ} :
    {A : Type ℓ} {C : Type κ} (first : Outcome A) (next : A → Outcome C) {c : C}
    → (first >>= next) ≡ ok c
    → (a : A) × (next a ≡ ok c) × (first ≡ ok a)
>>=-eq-ok undef next ended = cc
>>=-eq-ok (ok a) next ended = (a, ended, refl)

pub Outcome-cases {ℓ} : {A : Type ℓ} (o : Outcome A) → (o ≡ undef) ⊎ ((a : A) × (o ≡ ok a))
Outcome-cases (ok a) = inr (a, refl)
Outcome-cases undef = inl refl

pub ok-injective {ℓ} : {A : Type ℓ} (a b : A) → ok a ≡ ok b → a ≡ b
ok-injective a b h = cc
