-- ===== src/Base/Json.antt =====
-- JSON values as Python holds them.
use Prim.Native.Nat.{ℕ, zero}
use Prim.Native.String.{String}
use mathlib.Core.Bool.{Bool, true, false, ◌&&◌, ◌||◌}
use mathlib.Core.List.{List, [], ◌∷◌, map}
use provider_simulator.Base.Dict
use provider_simulator.Base.Dict.{string_key}
use provider_simulator.Base.Int.{ℤ, pos}
use provider_simulator.Base.Lists.{any}
use provider_simulator.Base.Results.{Result, ok, err, type_error}
use provider_simulator.Base.Tests.{nat_eq}
use provider_simulator.Base.Text.{◌==◌, codes}

mutual
  -- `real` is a number with a fraction or an exponent: whether it is not zero, and its text.
  pub data Json : Type 0 where
    null : Json
    bool : Bool → Json
    num : ℤ → Json
    real : Bool → String → Json
    text : String → Json
    arr : Items → Json
    obj : Fields → Json

  pub data Items : Type 0 where
    nil : Items
    cons : Json → Items → Items

  pub data Fields : Type 0 where
    end : Fields
    field : String → Json → Fields → Fields

abbrev pub items : Items → List Json
items nil = []
items (cons x xs) = x ∷ items xs

abbrev pub fields : Fields → List (String × Json)
fields end = []
fields (field k v fs) = (k, v) ∷ fields fs

-- bool(value)
abbrev pub is_truthy : Json → Bool
is_truthy null = false
is_truthy (bool b) = b
is_truthy (num (pos zero)) = false
is_truthy (num _) = true
is_truthy (real nonzero s) = nonzero
is_truthy (text String.[]) = false
is_truthy (text _) = true
is_truthy (arr nil) = false
is_truthy (arr _) = true
is_truthy (obj end) = false
is_truthy (obj _) = true

-- value == "s"
abbrev pub is_text : String → Json → Bool
is_text s (text t) = t == s
is_text s _ = false

-- The characters of a text, each a text of its own.
abbrev pub characters : String → List Json
characters String.[] = []
characters (String.◌∷◌ c s) = text (String.◌∷◌ c String.[]) ∷ characters s

-- for x in value: a list, the keys of an object, the characters of a text
abbrev pub iterate : Json → Result (List Json)
iterate (arr xs) = ok (items xs)
iterate (obj fs) = ok (map (λ (k, _). text k) (fields fs))
iterate (text s) = ok (characters s)
iterate _ = err type_error

abbrev pub is_prefix : List ℕ → List ℕ → Bool
is_prefix [] ys = true
is_prefix (x ∷ xs) [] = false
is_prefix (x ∷ xs) (y ∷ ys) = nat_eq x y && is_prefix xs ys

-- needle in haystack, for texts
abbrev pub is_infix : List ℕ → List ℕ → Bool
is_infix needle [] = is_prefix needle []
is_infix needle (y ∷ ys) = is_prefix needle (y ∷ ys) || is_infix needle ys

-- "s" in value: an item of a list, a key of an object, a part of a text
abbrev pub contains : String → Json → Result Bool
contains s (arr xs) = ok (any (is_text s) (items xs))
contains s (obj fs) = ok (Dict.has s (fields fs))
contains s (text t) = ok (is_infix (codes s) (codes t))
contains s _ = err type_error
