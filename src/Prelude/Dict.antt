-- ===== src/Prelude/Dict.antt =====
-- Python's dict, in insertion order: assigning to a present key keeps its place.
use mathlib.Core.Path.{◌≡◌, refl}
use mathlib.Core.Bool.{true}
use mathlib.Core.Option.{Option, none, some}
use mathlib.Core.List.{List, [], ◌∷◌}
use native.Mathlib.Omega.{arith}
use tv_zerodha_bot.Prelude.Tests.{if◌then◌else◌, HasEq, ◌==◌}

abbrev pub Dict {ℓ κ} : Type ℓ → Type κ → Type (ℓ ⊔ κ)
Dict K V = List (K × V)

module _ {ℓ κ} {K : Type ℓ} {V : Type κ} ⦃e : HasEq K⦄ where
  -- `d.get(k)`
  abbrev pub lookup : K → Dict K V → Option V
  lookup k [] = none
  lookup k ((j, v) ∷ d) = if j == k then some v else lookup k d

  -- `d[k] = v`
  abbrev pub insert : K → V → Dict K V → Dict K V
  insert k v [] = (k, v) ∷ []
  insert k v ((j, w) ∷ d) = if j == k then (j, v) ∷ d else (j, w) ∷ insert k v d

  -- `d.pop(k, None)`, the dict that is left
  abbrev pub erase : K → Dict K V → Dict K V
  erase k [] = []
  erase k ((j, v) ∷ d) = if j == k then d else (j, v) ∷ erase k d

  -- No key stands twice, which a dict gives for nothing and an association list does not.
  abbrev pub IsUnique : Dict K V → Type κ
  IsUnique [] = Unit
  IsUnique ((j, v) ∷ d) = (lookup j d ≡ none) × IsUnique d

  pub lookup-insert :
      (k j : K) (v : V) (d : Dict K V)
      → lookup j (insert k v d) ≡ (if k == j then some v else lookup j d)
  lookup-insert k j v [] = refl
  lookup-insert k j v ((i, w) ∷ d) =
      ground (arith, e.same_iff k j, e.same_iff i k, e.same_iff i j, lookup-insert k j v d)

  pub lookup-erase :
      (k j : K) (d : Dict K V)
      → IsUnique d
      → lookup j (erase k d) ≡ (if k == j then none else lookup j d)
  lookup-erase k j [] u = ground arith
  lookup-erase k j ((i, w) ∷ d) u =
      ground (arith, e.same_iff k j, e.same_iff i k, e.same_iff i j, lookup-erase k j d)

  pub insert-IsUnique : (k : K) (v : V) (d : Dict K V) → IsUnique d → IsUnique (insert k v d)
  insert-IsUnique k v [] u = (refl, tt)
  insert-IsUnique k v ((j, w) ∷ d) u =
      ground (arith, insert-IsUnique k v d, lookup-insert k j v d, e.same_iff j k, e.same_iff k j)

  pub erase-IsUnique : (k : K) (d : Dict K V) → IsUnique d → IsUnique (erase k d)
  erase-IsUnique k [] u = tt
  erase-IsUnique k ((j, w) ∷ d) u =
      ground (arith, erase-IsUnique k d, lookup-erase k j d, e.same_iff k j)

pub eq_self {ℓ} : {K : Type ℓ} ⦃e : HasEq K⦄ (k : K) → (k == k) ≡ true
eq_self ⦃e⦄ k = (e.same_iff k k).1 refl
