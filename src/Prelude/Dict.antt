-- ===== src/Prelude/Dict.antt =====
-- `HashMap<String, V>` as an association list. An insertion under a key that is there replaces its
-- value; a new key goes to the end, which fixes the order in which a map is iterated.
use Prim.Native.String.{String}
use mathlib.Core.Path.{◌≡◌, refl}
use mathlib.Core.Bool.{Bool, true, false}
use mathlib.Core.Option.{Option, none, some}
use mathlib.Core.List.{List, [], ◌∷◌, map}
use native.Mathlib.Omega.{arith}
use text.Mathlib.Text.{◌==◌ as str_eq}
use text.Mathlib.TextEquality.{eq_iff}
use polymarket_indexer.Prelude.Tests.{if◌then◌else◌}

-- Whether a text is among some.
unfoldable pub contains : String → List String → Bool
contains x [] = false
contains x (y ∷ ys) = if str_eq y x then true else contains x ys

abbrev pub Dict {ℓ} : Type ℓ → Type ℓ
Dict V = List (String × V)

module _ {ℓ} {V : Type ℓ} where
  -- `map.get(key)`
  unfoldable pub lookup : String → Dict V → Option V
  lookup k [] = none
  lookup k ((j, v) ∷ m) = if str_eq j k then some v else lookup k m

  -- `map.insert(key, value)`
  unfoldable pub insert : String → V → Dict V → Dict V
  insert k v [] = (k, v) ∷ []
  insert k v ((j, w) ∷ m) = if str_eq j k then (j, v) ∷ m else (j, w) ∷ insert k v m

  -- `map.contains_key(key)`
  unfoldable pub contains_key : String → Dict V → Bool
  unfolding lookup
  contains_key k m = elim (lookup k m) [ none ↦ false | some v ↦ true ]

  unfoldable pub keys : Dict V → List String
  keys m = map (λ (k, v). k) m

  abbrev pub NodupKeys : Dict V → Type ℓ
  NodupKeys [] = Unit
  NodupKeys ((k, v) ∷ m) = (lookup k m ≡ none) × NodupKeys m

  pub lookup-insert :
      (new asked : String) (value : V) (rest : Dict V)
      → lookup asked (insert new value rest)
        ≡ (if str_eq new asked then some value else lookup asked rest)
  unfolding lookup insert
  lookup-insert new asked value [] = refl
  lookup-insert new asked value ((old, w) ∷ rest) = ground (
    arith,
    eq_iff new asked,
    eq_iff old new,
    eq_iff old asked,
    lookup-insert new asked value rest,
  )

  pub insert-NodupKeys : (k : String) (v : V) (m : Dict V) → NodupKeys m → NodupKeys (insert k v m)
  unfolding insert lookup
  insert-NodupKeys k v [] u = (refl, tt)
  insert-NodupKeys k v ((j, w) ∷ m) (fresh, u) =
      ground (arith, eq_iff j k, eq_iff k j, insert-NodupKeys k v m u, lookup-insert k j v m)
