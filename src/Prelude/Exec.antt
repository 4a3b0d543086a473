-- ===== src/Prelude/Exec.antt =====
-- Methods that change an object, or the world, and may return early by `?`. What was written before
-- an early return stays written, so the state comes back beside the error too.
use Prim.Native.String.{String}
use mathlib.Core.Path.{◌≡◌, refl, ap}
use mathlib.Core.Logic.{◌⊎◌, inl, inr}
use polymarket_indexer.Prelude.Outcome.{Result, ok, err}

abbrev pub Exec {ℓ κ} : Type ℓ → Type κ → Type (ℓ ⊔ κ)
Exec S A = S → Result A × S

module _ {ℓ κ} {S : Type ℓ} {A : Type κ} where
  abbrev pub pure : A → Exec S A
  pure a s = (ok a, s)

  abbrev pub fail : String → Exec S A
  fail e s = (err e, s)

  abbrev pub lift : Result A → Exec S A
  lift r s = (r, s)

  abbrev pub gets : (S → A) → Exec S A
  gets f s = (ok (f s), s)

module _ {ℓ κ μ} {S : Type ℓ} {A : Type κ} {B : Type μ} where
  abbrev pub continue : Result A → (A → Exec S B) → Exec S B
  continue (ok a) f s = f a s
  continue (err e) f s = (err e, s)

  infixl 5 ◌>>=◌ ◌>>◌
  abbrev pub ◌>>=◌ : Exec S A → (A → Exec S B) → Exec S B
  ◌>>=◌ m f s = continue (m s).0 f (m s).1

  abbrev pub ◌>>◌ : Exec S A → Exec S B → Exec S B
  m >> n = m >>= λ _. n

module _ {ℓ κ μ ν} {S : Type ℓ} {A : Type κ} {B : Type μ} (R : S → Type ν) where
  continue-after :
      (r : Result A) (f : A → Exec S B) (s : S)
      → ((a : A) → r ≡ ok a → R (f a s).1)
      → ((e : String) → r ≡ err e → R s)
      → R (continue r f s).1
  continue-after (ok a) f s returned failed = returned a refl
  continue-after (err e) f s returned failed = failed e refl

  -- The state after a bind: after the rest, where the first part returned, and else after that part.
  pub after-bind :
      (m : Exec S A) (f : A → Exec S B) (s : S)
      → ((a : A) → (m s).0 ≡ ok a → R (f a (m s).1).1)
      → ((e : String) → (m s).0 ≡ err e → R (m s).1)
      → R ((m >>= f) s).1
  after-bind m f s = continue-after (m s).0 f (m s).1

module _ {ℓ κ μ} {S : Type ℓ} {A : Type κ} {B : Type μ} where
  continue-eq-ok :
      (r : Result A) (f : A → Exec S B) (s : S) {b : B}
      → (continue r f s).0 ≡ ok b
      → (a : A) × (r ≡ ok a) × ((f a s).0 ≡ ok b) × ((continue r f s).1 ≡ (f a s).1)
  continue-eq-ok (ok a) f s h = (a, refl, h, refl)
  continue-eq-ok (err e) f s h = cc

  -- A bind whose first half returned does what its second half does.
  pub bind-of-ok :
      (m : Exec S A) (f : A → Exec S B) (s : S) {a : A} → (m s).0 ≡ ok a → (m >>= f) s ≡ f a (m s).1
  bind-of-ok m f s e = ap (λ r. continue r f (m s).1) e

  pub bind-of-eq :
      (m : Exec S A) (f : A → Exec S B) (s : S) {a : A} {s' : S}
      → m s ≡ (ok a, s')
      → (m >>= f) s ≡ f a s'
  bind-of-eq m f s e = ap (λ r. continue r.0 f r.1) e

  -- A bind that returned a value has two halves that did.
  pub bind-eq-ok :
      (m : Exec S A) (f : A → Exec S B) (s : S) {b : B}
      → ((m >>= f) s).0 ≡ ok b
      → (a : A) × ((m s).0 ≡ ok a) × ((f a (m s).1).0 ≡ ok b) × (((m >>= f) s).1 ≡ (f a (m s).1).1)
  bind-eq-ok m f s = continue-eq-ok (m s).0 f (m s).1

  continue-eq-err :
      (r : Result A) (f : A → Exec S B) (s : S) {e : String}
      → (continue r f s).0 ≡ err e
      → ((r ≡ err e) × ((continue r f s).1 ≡ s))
        ⊎ ((a : A) × (r ≡ ok a) × ((f a s).0 ≡ err e) × ((continue r f s).1 ≡ (f a s).1))
  continue-eq-err (ok a) f s h = inr (a, refl, h, refl)
  continue-eq-err (err e) f s h = inl (cc, refl)

  -- A bind that failed did so in its first half, or in the second.
  pub bind-eq-err :
      (m : Exec S A) (f : A → Exec S B) (s : S) {e : String}
      → ((m >>= f) s).0 ≡ err e
      → (((m s).0 ≡ err e) × (((m >>= f) s).1 ≡ (m s).1))
        ⊎ ((a : A) × ((m s).0 ≡ ok a)
            × ((f a (m s).1).0 ≡ err e)
            × (((m >>= f) s).1 ≡ (f a (m s).1).1))
  bind-eq-err m f s = continue-eq-err (m s).0 f (m s).1

-- `m` keeps `P`, whether it returns or fails.
abbrev pub Keeps {ℓ κ μ} : {S : Type ℓ} {A : Type κ} → (S → Type μ) → Exec S A → Type (ℓ ⊔ μ)
Keeps {S} P m = (s : S) → P s → P (m s).1

module _ {ℓ κ μ ν} {S : Type ℓ} {A : Type κ} {B : Type μ} (P : S → Type ν) where
  pub Keeps-bind :
      (first : Exec S A) (next : A → Exec S B)
      → Keeps P first
      → ((a : A) → Keeps P (next a))
      → Keeps P (first >>= next)
  Keeps-bind first next kept kept_next s h =
      after-bind P first next s (λ a _. kept_next a (first s).1 (kept s h)) (λ e _. kept s h)
