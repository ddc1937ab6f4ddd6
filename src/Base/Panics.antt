-- ===== src/Base/Panics.antt =====
-- A Go call that returns a value or panics.
use mathlib.Core.Path.{◌≡◌, refl, sym, ap, subst}
use mathlib.Core.Bool.{Bool, true, false}

-- `panicked` stands for a call of `panic`, whatever its message.
pub data Outcome {ℓ} (A : Type ℓ) : Type ℓ where
  returned : A → Outcome A
  panicked : Outcome A

infixl 5 ◌>>=◌ ◌>>◌
abbrev pub ◌>>=◌ {ℓ κ} : {A : Type ℓ} {B : Type κ} → Outcome A → (A → Outcome B) → Outcome B
returned a >>= f = f a
panicked >>= f = panicked

abbrev pub ◌>>◌ {ℓ} : {B : Type ℓ} → Outcome (Unit {0}) → Outcome B → Outcome B
m >> k = m >>= λ _. k

-- `if cond { panic(...) }`
abbrev pub panic_if : Bool → Outcome (Unit {0})
panic_if true = panicked
panic_if false = returned tt

-- Inversion of a bind that returned.
pub >>=-eq-returned {ℓ κ} :
    {A : Type ℓ} {B : Type κ} (m : Outcome A) (f : A → Outcome B) {b : B}
    → (m >>= f) ≡ returned b
    → (a : A) × (m ≡ returned a) × (f a ≡ returned b)
>>=-eq-returned (returned a) f h = (a, refl, h)
>>=-eq-returned panicked f h = cc

-- What a returned value is.
pub returned_injective {ℓ} : {A : Type ℓ} (a b : A) → returned a ≡ returned b → b ≡ a
returned_injective {A = A} a b e = ap value (sym e)
  where
    value : Outcome A → A
    value (returned x) = x
    value panicked = a

-- What holds of the state that is returned holds of the state a run ends in.
pub carried {ℓ ℓ' ℓ''} :
    {A : Type ℓ} {B : Type ℓ'} (P : B → Type ℓ'') {a a' : A} {b b' : B}
    → ◌≡◌ {A = Outcome (A × B)} (returned (a, b)) (returned (a', b'))
    → P b
    → P b'
carried P run = subst P (sym (ap (λ x. x.1) (returned_injective _ _ run)))
