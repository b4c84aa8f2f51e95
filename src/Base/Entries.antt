-- ===== src/Base/Entries.antt =====
-- What holds of each value of a dictionary, and a change of each value.
use mathlib.Core.Path.{◌≡◌, refl, subst}
use mathlib.Core.Logic.{inl, inr}
use mathlib.Core.Option.{Option, none, some, some-injective}
use mathlib.Core.List.{[], ◌∷◌}
use Prim.Native.String.{String}
use native.Mathlib.Omega.{arith}
use provider_simulator.Base.Dict
use provider_simulator.Base.Dict.{Dict, string_key}
use provider_simulator.Base.Tests.{Bool-cases}
use provider_simulator.Base.Text.{◌==◌, eq_iff}

module _ {ℓ κ} {V : Type ℓ} where
  abbrev pub AllValues : (V → Type κ) → Dict String V → Type κ
  AllValues P [] = Unit
  AllValues P ((k, v) ∷ d) = P v × AllValues P d

module _ {ℓ κ} {V : Type ℓ} (P : V → Type κ) where
  pub put-AllValues :
      (k : String) (v : V) (d : Dict String V) → P v → AllValues P d → AllValues P (Dict.put k v d)
  put-AllValues k v [] hv h = (hv, tt)
  put-AllValues k v ((j, w) ∷ d) hv (hw, h) = elim (Bool-cases (j == k)) [
    | inl same ↦ rw same (hv, h)
    | inr other ↦ rw other (hw, put-AllValues k v d hv h)
  ]

  pub get-AllValues :
      (k : String) (d : Dict String V) {v : V} → AllValues P d → Dict.get k d ≡ some v → P v
  get-AllValues k [] h e = absurd (cc e)
  get-AllValues k ((j, w) ∷ d) {v = v} (hw, h) e = elim (Bool-cases (j == k)) [
    | inl same ↦ subst P (some-injective _ _ (ground arith)) hw
    | inr other ↦ get-AllValues k d h (ground arith)
  ]

-- Each value becomes what a function of its key and of it gives.
abbrev pub map_values {ℓ} : {V : Type ℓ} → (String → V → V) → Dict String V → Dict String V
map_values f [] = []
map_values f ((k, v) ∷ d) = (k, f k v) ∷ map_values f d

abbrev pub map_some {ℓ} : {V : Type ℓ} → (V → V) → Option V → Option V
map_some f none = none
map_some f (some v) = some (f v)

pub get-map_values {ℓ} :
    {V : Type ℓ} (f : String → V → V) (k : String) (d : Dict String V)
    → Dict.get k (map_values f d) ≡ map_some (f k) (Dict.get k d)
get-map_values f k [] = refl
get-map_values f k ((j, v) ∷ d) = elim (Bool-cases (j == k)) [
  | inl same ↦ rw (same, (eq_iff j k).0 same) refl
  | inr other ↦ rw (other, get-map_values f k d) refl
]
