-- ===== src/Prelude/Outcome.antt =====
-- `anyhow::Result` and the `?` operator.
use Prim.Native.String.{String}
use mathlib.Core.Path.{◌≡◌, refl}
use mathlib.Core.Logic.{◌⊎◌, inl, inr}

-- An `anyhow::Error` is its message.
pub data Result {ℓ} (A : Type ℓ) : Type ℓ where
  ok : A → Result A
  err : String → Result A

infixl 5 ◌>>=◌ ◌>>◌
abbrev pub ◌>>=◌ {ℓ κ} : {A : Type ℓ} {B : Type κ} → Result A → (A → Result B) → Result B
err message >>= next = err message
ok value >>= next = next value

abbrev pub ◌>>◌ {ℓ} : {B : Type ℓ} → Result (Unit {0}) → Result B → Result B
first >> second = first >>= λ _. second

-- A bind that returned a value has two halves that did.
pub >>=-eq-ok {κ ℓ} :
    {A : Type κ} {B : Type ℓ} (first : Result A) (next : A → Result B) {value : B}
    → (first >>= next) ≡ ok value
    → (between : A) × (first ≡ ok between) × (next between ≡ ok value)
>>=-eq-ok (err message) next returned = cc
>>=-eq-ok (ok between) next returned = (between, refl, returned)

pub Result-cases {ℓ} :
    {A : Type ℓ} (r : Result A) → ((a : A) × (r ≡ ok a)) ⊎ ((e : String) × (r ≡ err e))
Result-cases (ok a) = inl (a, refl)
Result-cases (err e) = inr (e, refl)
