-- ===== src/ControlApi/Fields.antt =====
-- provider_simulator/control_api.py: the values that one field of a block may hold. What the program
-- does with a floating-point number is a parameter. A rule answers whether it refuses; the text of a
-- refusal is left out.
use provider_simulator.Base.{
  ℕ, String, Bool, true, false, not, ◌&&◌, ◌||◌, none, some, List, [], ◌∷◌, any, is_one_of, ◌==◌,
  if◌then◌else◌,
}
use provider_simulator.Base.Dict
use provider_simulator.Base.Dict.{Dict, string_key}
use provider_simulator.Base.Int.{pos, leb_ℤ}
use provider_simulator.Base.Json.{Json, null, num, real, arr, obj, is_text}
use provider_simulator.Base.Results.{Result, ok, err, type_error}

-- Comparisons of a floating-point number, by its text: with 0.0 and 1.0, with 0, and with a whole
-- number.
pub record Floats : Type 0 where
  pub in_unit : String → Bool
  pub is_nonnegative : String → Bool
  pub equals : String → ℕ → Bool

-- _MODES
abbrev pub modes : List String
modes =
    "success" ∷ "error" ∷ "rate_limit" ∷ "down" ∷ "hang" ∷ "drop_connection" ∷ "port_closed" ∷ []

-- _PER_METHOD_MODES
abbrev pub per_method_modes : List String
per_method_modes = "success" ∷ "rate_limit" ∷ "down" ∷ "hang" ∷ "drop_connection" ∷ []

-- _CORRUPTION_MODES
abbrev pub corruption_modes : List String
corruption_modes =
    "truncated" ∷ "missing_field" ∷ "invalid_json" ∷ "empty_response" ∷ "wrong_type" ∷ "null_body"
    ∷ "invalid_proto" ∷ []

-- _ENUMS
unfoldable pub enums : Dict String (List String)
enums =
    ("mode", modes)
    ∷ ("corruption_mode", corruption_modes)
    ∷ ("drop_at", "before_headers" ∷ "after_headers" ∷ "mid_body" ∷ [])
    ∷ ("pause_at", "after_headers" ∷ "mid_body" ∷ [])
    ∷ ("then_mode", modes)
    ∷ ("logs_lag_mode", "empty" ∷ "partial" ∷ [])
    ∷ ("unknown_method_mode", "null" ∷ "error" ∷ [])
    ∷ []

-- value is not None and value not in allowed: a list and an object have no hash.
abbrev pub is_outside : List String → Json → Result Bool
is_outside allowed null = ok false
is_outside allowed (arr values) = err type_error
is_outside allowed (obj fs) = err type_error
is_outside allowed value = ok (not (any (λ name. is_text name value) allowed))

-- _bad_enum
unfoldable pub bad_enum : String → Json → Result Bool
bad_enum field value =
    if (field == "pause_at" && is_text "before_headers" value)
      || (field == "then_mode" && is_text "port_closed" value)
    then ok true
    else elim (Dict.get field enums) [ none ↦ ok false | some allowed ↦ is_outside allowed value ]

module _ (floats : Floats) where
  abbrev pub is_probability : Json → Bool
  is_probability (num n) = leb_ℤ (pos 0) n && leb_ℤ n (pos 1)
  is_probability (real nonzero s) = floats.in_unit s
  is_probability value = false

  abbrev pub is_count : Json → Bool
  is_count (num n) = leb_ℤ (pos 0) n
  is_count value = false

  abbrev pub is_rate : Json → Bool
  is_rate (num n) = leb_ℤ (pos 0) n
  is_rate (real nonzero s) = floats.is_nonnegative s
  is_rate value = false

  -- _bad_number
  unfoldable pub bad_number : String → Json → Bool
  bad_number field value =
      if field == "error_probability"
      then not (is_probability value)
      else if is_one_of field ("latency_ms" ∷ "pause_ms" ∷ "fail_first_n" ∷ "blocks" ∷ [])
      then not (is_count value)
      else if field == "per_second"
      then not (is_rate value)
      else false
