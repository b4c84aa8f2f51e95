-- ===== src/Base/Dict.antt =====
-- Python's `dict`, in the order of insertion: a key that is there keeps its place.
use Prim.Native.Nat.{ℕ}
use mathlib.Core.Path.{◌≡◌, refl}
use mathlib.Core.Logic.{◌↔◌, inl, inr}
use mathlib.Core.Bool.{Bool, true, false, ◌||◌}
use mathlib.Core.List.{List, [], ◌∷◌, ◌++◌}
use mathlib.Core.Option
use mathlib.Core.Option.{Option, none, some}
use native.Mathlib.Omega.{arith}
use Prim.Native.String.{String}
use provider_simulator.Base.Tests.{if◌then◌else◌, nat_eq, nat_eq_iff, Bool-cases}
use provider_simulator.Base.Text.{◌==◌, eq_iff}

pub record Eq {ℓ} (A : Type ℓ) : Type ℓ where
  pub beq : A → A → Bool
  pub beq_iff : (a b : A) → (beq a b ≡ true) ↔ (a ≡ b)

instance abbrev pub nat_key : Eq ℕ
nat_key = record { beq = nat_eq; beq_iff = nat_eq_iff }

instance abbrev pub string_key : Eq String
string_key = record { beq = ◌==◌; beq_iff = eq_iff }

abbrev pub Dict {ℓ κ} : Type ℓ → Type κ → Type (ℓ ⊔ κ)
Dict K V = List (K × V)

module _ {ℓ κ} {K : Type ℓ} ⦃e : Eq K⦄ {V : Type κ} where
  -- d.get(k)
  abbrev pub get : K → Dict K V → Option V
  get k [] = none
  get k ((j, v) ∷ d) = if e.beq j k then some v else get k d

  -- d[k] = v
  abbrev pub put : K → V → Dict K V → Dict K V
  put k v [] = (k, v) ∷ []
  put k v ((j, w) ∷ d) = if e.beq j k then (j, v) ∷ d else (j, w) ∷ put k v d

  -- d.pop(k, None)
  abbrev pub remove : K → Dict K V → Dict K V
  remove k [] = []
  remove k ((j, w) ∷ d) = if e.beq j k then remove k d else (j, w) ∷ remove k d

  -- k in d
  abbrev pub has : K → Dict K V → Bool
  has k [] = false
  has k ((j, w) ∷ d) = e.beq j k || has k d

  -- d.get(k, default)
  abbrev pub get_or : K → V → Dict K V → V
  get_or k v [] = v
  get_or k v ((j, w) ∷ d) = if e.beq j k then w else get_or k v d

module _ {ℓ κ} {K : Type ℓ} ⦃e : Eq K⦄ {V : Type κ} where
  pub get-put :
      (k j : K) (v : V) (d : Dict K V) → get j (put k v d) ≡ (if e.beq k j then some v else get j d)
  get-put k j v [] = refl
  get-put k j v ((i, w) ∷ d) =
      ground (arith, e.beq_iff k j, e.beq_iff i k, e.beq_iff i j, get-put k j v d)

  pub get-put_self : (k : K) (v : V) (d : Dict K V) → get k (put k v d) ≡ some v
  get-put_self k v d = ground (arith, get-put k k v d, e.beq_iff k k)

  pub get-remove :
      (k j : K) (d : Dict K V) → get j (remove k d) ≡ (if e.beq k j then none else get j d)
  get-remove k j [] = ground arith
  get-remove k j ((i, w) ∷ d) =
      ground (arith, e.beq_iff k j, e.beq_iff i k, e.beq_iff i j, get-remove k j d)

  pub get_or-get : (k : K) (v : V) (d : Dict K V) → get_or k v d ≡ Option.get_or (get k d) v
  get_or-get k v [] = refl
  get_or-get k v ((i, w) ∷ d) = ground (arith, get_or-get k v d)

  pub has-put : (k j : K) (v : V) (d : Dict K V) → has j (put k v d) ≡ (e.beq k j || has j d)
  has-put k j v [] = ground arith
  has-put k j v ((i, w) ∷ d) =
      ground (arith, e.beq_iff k j, e.beq_iff i k, e.beq_iff i j, has-put k j v d)

  -- A key that is not there has no value, and one that is there has one.
  pub get-has : (k : K) (d : Dict K V) → has k d ≡ false → get k d ≡ none
  get-has k [] h = refl
  get-has k ((i, w) ∷ d) h = ground (arith, get-has k d)

  pub has-get : (k : K) (d : Dict K V) (v : V) → get k d ≡ some v → has k d ≡ true
  has-get k [] v h = ground arith
  has-get k ((i, w) ∷ d) v h = ground (arith, has-get k d v)

  pub get_of_has : (k : K) (d : Dict K V) → has k d ≡ true → (v : V) × (get k d ≡ some v)
  get_of_has k [] h = absurd (ground arith)
  get_of_has k ((i, w) ∷ d) h = elim (Bool-cases (e.beq i k)) [
    | inl here ↦ (w, rw here)
    | inr there ↦ rw there (get_of_has k d (ground arith))
  ]

  -- A write of a new key goes to the end.
  pub put_absent : (k : K) (v : V) (d : Dict K V) → has k d ≡ false → put k v d ≡ d ++ (k, v) ∷ []
  put_absent k v [] h = refl
  put_absent k v ((i, w) ∷ d) h = ground (arith, put_absent k v d)

  pub get_or-put :
      (k j : K) (v u : V) (d : Dict K V)
      → get_or j u (put k v d) ≡ (if e.beq k j then v else get_or j u d)
  get_or-put k j v u [] = refl
  get_or-put k j v u ((i, w) ∷ d) =
      ground (arith, e.beq_iff k j, e.beq_iff i k, e.beq_iff i j, get_or-put k j v u d)

  pub get_or-remove :
      (k j : K) (u : V) (d : Dict K V)
      → get_or j u (remove k d) ≡ (if e.beq k j then u else get_or j u d)
  get_or-remove k j u [] = ground arith
  get_or-remove k j u ((i, w) ∷ d) =
      ground (arith, e.beq_iff k j, e.beq_iff i k, e.beq_iff i j, get_or-remove k j u d)

-- No key stands twice, as in every Python dict.
module _ {ℓ κ} {K : Type ℓ} ⦃e : Eq K⦄ {V : Type κ} where
  abbrev pub HasDistinctKeys : Dict K V → Type 0
  HasDistinctKeys [] = Unit
  HasDistinctKeys ((k, v) ∷ d) = (has k d ≡ false) × HasDistinctKeys d

module _ {ℓ κ} {K : Type ℓ} ⦃e : Eq K⦄ {V : Type κ} where
  pub put-HasDistinctKeys :
      (k : K) (v : V) (d : Dict K V) → HasDistinctKeys d → HasDistinctKeys (put k v d)
  put-HasDistinctKeys k v [] h = (refl, tt)
  put-HasDistinctKeys k v ((i, w) ∷ d) h = elim (Bool-cases (e.beq i k)) [
    | inl same ↦ rw same h
    | inr other ↦ rw other (
      ground (arith, has-put k i v d, e.beq_iff i k, e.beq_iff k i),
      put-HasDistinctKeys k v d h.1,
    )
  ]
