-- ===== src/Prelude/Lists.antt =====
-- Lists measured by native numbers, and predicates on their elements.
use Prim.Native.Nat.{ℕ, zero, suc, ◌+◌}
use mathlib.Core.Path.{◌≡◌, refl, ap, sym}
use mathlib.Core.Option.{Option, none, some}
use mathlib.Core.List.{List, [], ◌∷◌, ◌++◌, map}
use Prim.Native.String.{String}
use mathlib.Core.Logic.{◌≢◌, ◌↔◌, ◌⊎◌, inl, inr}
use mathlib.Core.Bool.{Bool, true, false, ◌&&◌}
use text.Mathlib.Text.{◌==◌ as str_eq}
use text.Mathlib.TextEquality.{eq_iff}
use native.Mathlib.Omega.{arith}

module _ {ℓ} {A : Type ℓ} where
  abbrev pub length : List A → ℕ
  length [] = 0
  length (x ∷ xs) = suc (length xs)

  abbrev pub get_elem? : List A → ℕ → Option A
  get_elem? [] i = none
  get_elem? (x ∷ xs) zero = some x
  get_elem? (x ∷ xs) (suc i) = get_elem? xs i

  abbrev pub is_empty : List A → Bool
  is_empty [] = true
  is_empty (x ∷ xs) = false

  abbrev pub replicate : ℕ → A → List A
  replicate zero a = []
  replicate (suc n) a = a ∷ replicate n a

  pub length-append : (xs ys : List A) → length (xs ++ ys) ≡ length xs + length ys
  length-append [] ys = omega arith
  length-append (x ∷ xs) ys = omega (arith, length-append xs ys)

  abbrev pub All {κ} : (A → Type κ) → List A → Type κ
  All P [] = Unit
  All P (x ∷ xs) = P x × All P xs

  pub All-append {κ} : (P : A → Type κ) (xs ys : List A) → All P xs → All P ys → All P (xs ++ ys)
  All-append P [] ys hx hy = hy
  All-append P (x ∷ xs) ys hx hy = (hx.0, All-append P xs ys hx.1 hy)

  pub All-map {κ μ} :
      (P : A → Type κ) (Q : A → Type μ) (xs : List A) → ((x : A) → P x → Q x) → All P xs → All Q xs
  All-map P Q [] f h = tt
  All-map P Q (x ∷ xs) f h = (f x h.0, All-map P Q xs f h.1)

module _ {ℓ} {A : Type ℓ} where
  -- No element stands in the list twice.
  abbrev pub Distinct : List A → Type ℓ
  Distinct [] = Unit
  Distinct (x ∷ xs) = All (λ y. y ≢ x) xs × Distinct xs

  pub All-remove {κ} :
      (P : A → Type κ) (before after : List A) (t : A)
      → All P (before ++ t ∷ after)
      → P t × All P (before ++ after)
  All-remove P [] after t h = h
  All-remove P (x ∷ before) after t h =
      let (ht, rest) = All-remove P before after t h.1 in (ht, (h.0, rest))

  -- The other elements differ from one that is taken out, and from each other.
  pub Distinct-remove :
      (before after : List A) (t : A)
      → Distinct (before ++ t ∷ after)
      → All (λ y. y ≢ t) (before ++ after) × Distinct (before ++ after)
  Distinct-remove [] after t h = h
  Distinct-remove (x ∷ before) after t h =
      let (differ, rest) = Distinct-remove before after t h.1 in
      let (ht, others) = All-remove (λ y. y ≢ x) before after t h.0 in
      ((λ e. ht (sym e), differ), (others, rest))

  pub All-zip {κ μ ν} :
      (P : A → Type κ) (Q : A → Type μ) (R : A → Type ν) (xs : List A)
      → ((x : A) → P x → Q x → R x)
      → All P xs
      → All Q xs
      → All R xs
  All-zip P Q R [] f hp hq = tt
  All-zip P Q R (x ∷ xs) f hp hq = (f x hp.0 hq.0, All-zip P Q R xs f hp.1 hq.1)

pub length-map {ℓ κ} :
    {A : Type ℓ} {B : Type κ} (f : A → B) (xs : List A) → length (map f xs) ≡ length xs
length-map f [] = refl
length-map f (x ∷ xs) = ap suc (length-map f xs)

-- `==` on vectors of strings.
abbrev pub strings_eq : List String → List String → Bool
strings_eq [] [] = true
strings_eq (x ∷ xs) (y ∷ ys) = str_eq x y && strings_eq xs ys
strings_eq _ _ = false

pub strings_eq_iff : (xs ys : List String) → (strings_eq xs ys ≡ true) ↔ (xs ≡ ys)
strings_eq_iff [] [] = (λ _. refl, λ _. refl)
strings_eq_iff [] (y ∷ ys) = (λ h. cc, λ h. cc)
strings_eq_iff (x ∷ xs) [] = (λ h. cc, λ h. cc)
strings_eq_iff (x ∷ xs) (y ∷ ys) = ground (arith, eq_iff x y, strings_eq_iff xs ys)

pub List-cases {ℓ} :
    {A : Type ℓ} (xs : List A) → (xs ≡ []) ⊎ ((x : A) × (rest : List A) × (xs ≡ x ∷ rest))
List-cases [] = inl refl
List-cases (x ∷ rest) = inr (x, rest, refl)
