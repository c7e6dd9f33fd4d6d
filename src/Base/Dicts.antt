-- ===== src/Base/Dicts.antt =====
-- std::unordered_map with text keys, as an association list in the order of its iteration.
use mathlib.Core.Path.{◌≡◌, refl}
use mathlib.Core.Option.{Option, none, some}
use mathlib.Core.List.{List, [], ◌∷◌}
use native.Mathlib.Omega.{arith}
use soem_driver_ros.Base.Tests.{if◌then◌else◌}
use soem_driver_ros.Base.Texts.{Text, text_eq, text_eq_iff, text_eq_refl}

abbrev pub Dict {ℓ} : Type ℓ → Type ℓ
Dict V = List (Text × V)

module _ {ℓ} {V : Type ℓ} where
  -- find
  unfoldable pub lookup : Text → Dict V → Option V
  lookup k [] = none
  lookup k ((j, v) ∷ m) = if text_eq j k then some v else lookup k m

  -- m[k] = v
  unfoldable pub assign : Text → V → Dict V → Dict V
  assign k v [] = (k, v) ∷ []
  assign k v ((j, w) ∷ m) = if text_eq j k then (j, v) ∷ m else (j, w) ∷ assign k v m

  -- emplace, insert: a key that is present keeps its value
  unfoldable pub emplace : Text → V → Dict V → Dict V
  emplace k v [] = (k, v) ∷ []
  emplace k v ((j, w) ∷ m) = if text_eq j k then (j, w) ∷ m else (j, w) ∷ emplace k v m

  abbrev pub or_default : V → Option V → V
  or_default d none = d
  or_default d (some v) = v

  -- The value of m[k], with the default that operator[] gives to a missing key.
  abbrev pub lookup_or : V → Text → Dict V → V
  lookup_or d k m = or_default d (lookup k m)

  pub lookup-assign :
      (k j : Text) (v : V) (m : Dict V)
      → lookup j (assign k v m) ≡ (if text_eq k j then some v else lookup j m)
  unfolding lookup assign
  lookup-assign k j v [] = refl
  lookup-assign k j v ((i, w) ∷ m) =
      ground (arith, text_eq_iff k j, text_eq_iff i k, text_eq_iff i j, lookup-assign k j v m)

  pub lookup-emplace :
      (k j : Text) (v : V) (m : Dict V)
      → lookup j (emplace k v m)
        ≡ (if text_eq k j then some (or_default v (lookup k m)) else lookup j m)
  unfolding lookup emplace
  lookup-emplace k j v [] = refl
  lookup-emplace k j v ((i, w) ∷ m) =
      ground (arith, text_eq_iff k j, text_eq_iff i k, text_eq_iff i j, lookup-emplace k j v m)

  pub lookup-assign_self : (k : Text) (v : V) (m : Dict V) → lookup k (assign k v m) ≡ some v
  lookup-assign_self k v m = simp (lookup-assign, text_eq_refl)
