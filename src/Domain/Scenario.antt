-- ===== src/Domain/Scenario.antt =====
-- provider_simulator/domain/scenario.py: the fault configuration of a provider, its fields with
-- their defaults, and the values that an update may not write. A dictionary of an update holds
-- JSON values, whose keys are texts.
pub mod Names
pub mod Chosen
pub mod Checks
mod Tests
use provider_simulator.Base.{
  ℕ, suc, zero, ◌+◌, ◌*◌, ◌-◌, ◌^◌, String, Bool, true, false, not, ◌&&◌, ◌||◌, Option, none, some,
  List, [], ◌∷◌, map, any, all, leb, ltb, nat_eq, is_one_of, ◌==◌, if◌then◌else◌, codes,
}
use provider_simulator.Base.Int.{ℤ, pos, negsuc, leb_ℤ}
use provider_simulator.Base.Dict
use provider_simulator.Base.Dict.{Dict, string_key}
use provider_simulator.Base.Json.{
  Json, null, bool, num, real, text, arr, obj, Items, nil, Fields, end, items, fields, is_truthy,
  is_text, iterate, contains,
}
use provider_simulator.Base.Results.{Result, ok, err, value_error, ◌>>=◌, ◌>>◌, raise_if}
use provider_simulator.Domain.Config.{ConfigClass}
use provider_simulator.Domain.Endpoint.{transports}
use provider_simulator.Domain.Scenario.Names.{
  is_digit, is_letter, is_name_char, is_visible, to_lower, lower, codes_eq, is_member, ends_with,
  headers_the_simulator_owns, names_the_grpc_library_owns, decimal, is_positive_number, is_pushback,
  is_bad_name, is_bad_value, is_reserved, is_bad_pushback, is_refused,
}

abbrev pub modes_that_never_reach_a_pause : List String
modes_that_never_reach_a_pause = "down" ∷ "hang" ∷ "drop_connection" ∷ "port_closed" ∷ []

abbrev pub rate_limit_styles : List String
rate_limit_styles = "status" ∷ "body" ∷ []

-- The loop over the chosen entries; `seen` holds the lowercased names so far.
unfoldable pub validate_entries : Bool → List (List ℕ) → List (String × Json) → Result (Unit {0})
validate_entries owned seen [] = ok tt
validate_entries owned seen ((name, value) ∷ rest) =
    let lowered = lower (codes name) in
    let others = validate_entries owned (lowered ∷ seen) rest in
    if is_refused owned name value || is_member lowered seen then err value_error else others

-- The value of the key, where a key that is not there reads null.
abbrev pub value_of : String → Dict String Json → Json
value_of key cfg = Dict.get_or key null cfg

-- Only the gRPC adapter writes trailers.
unfoldable pub check_trailer_transports : Bool → Json → Result (Unit {0})
check_trailer_transports true null = ok tt
check_trailer_transports true wires = do
  there ← contains "http2" wires
  raise_if (not there) value_error
check_trailer_transports false wires = ok tt

unfoldable pub validate_chosen_value : Bool → Json → Json → Result (Unit {0})
unfolding validate_entries
validate_chosen_value owned null wires = ok tt
validate_chosen_value owned (obj fs) wires = do
  validate_entries owned [] (fields fs)
  check_trailer_transports (not owned && is_truthy (obj fs)) wires
validate_chosen_value owned chosen wires = err value_error

unfoldable pub validate_chosen : Dict String Json → String → Result (Unit {0})
validate_chosen cfg field_name =
    validate_chosen_value (field_name == "reply_headers") (value_of field_name cfg)
      (value_of "transports" cfg)

unfoldable pub validate_rate_limit_style : Dict String Json → Result (Unit {0})
validate_rate_limit_style cfg =
    raise_if
      (Dict.has "rate_limit_style" cfg
        && not (any (λ style. is_text style (value_of "rate_limit_style" cfg)) rate_limit_styles))
      value_error

-- not isinstance(x, bool) and isinstance(x, int) and lo <= x <= hi
unfoldable pub is_int_between : ℕ → ℕ → Json → Bool
is_int_between lo hi (num n) = leb_ℤ (pos lo) n && leb_ℤ n (pos hi)
is_int_between lo hi _ = false

unfoldable pub validate_reply : Json → Result (Unit {0})
validate_reply null = ok tt
validate_reply (obj fs) =
    raise_if
      (any (λ (k, _). not (is_one_of k ("status" ∷ "body" ∷ []))) (fields fs)
        || not (is_int_between 100 599 (value_of "status" (fields fs))))
      value_error
validate_reply reply = err value_error

unfoldable pub validate_unreadable_reply : Dict String Json → Result (Unit {0})
validate_unreadable_reply cfg = validate_reply (value_of "unreadable_reply" cfg)

-- t in TRANSPORTS
abbrev pub is_transport : Json → Bool
is_transport t = any (λ wire. is_text wire t) transports

unfoldable pub validate_transport_list : Json → Result (Unit {0})
validate_transport_list null = ok tt
validate_transport_list wires = do
  each ← iterate wires
  raise_if (any (λ t. not (is_transport t)) each) value_error

unfoldable pub validate_transports : Dict String Json → Result (Unit {0})
validate_transports cfg = validate_transport_list (value_of "transports" cfg)

unfoldable pub validate_port_list : Json → Result (Unit {0})
validate_port_list null = ok tt
validate_port_list (arr nil) = err value_error
validate_port_list (arr xs) =
    raise_if (any (λ p. not (is_int_between 1 65535 p)) (items xs)) value_error
validate_port_list ports = err value_error

unfoldable pub validate_ports : Dict String Json → Result (Unit {0})
validate_ports cfg = validate_port_list (value_of "ports" cfg)

-- transports is not None and "http" not in transports
unfoldable pub lacks_http : Json → Result Bool
lacks_http null = ok false
lacks_http wires = do there ← contains "http" wires; ok (not there)

unfoldable pub validate_pause : Dict String Json → Result (Unit {0})
validate_pause cfg = do
  let pause_at = value_of "pause_at" cfg
  let mode = value_of "mode" cfg
  raise_if (is_truthy pause_at && any (λ m. is_text m mode) modes_that_never_reach_a_pause)
      value_error
  elsewhere ← if is_truthy pause_at then lacks_http (value_of "transports" cfg) else ok false
  raise_if elsewhere value_error
  raise_if
      (is_truthy (value_of "pause_ms" cfg) && Dict.has "pause_at" cfg && not (is_truthy pause_at))
      value_error

unfoldable pub validate : Dict String Json → Result (Unit {0})
validate cfg = do
  validate_transports cfg
  validate_ports cfg
  validate_pause cfg
  validate_rate_limit_style cfg
  validate_unreadable_reply cfg
  validate_chosen cfg "reply_headers"
  validate_chosen cfg "reply_trailers"

-- The fields of ScenarioConfig with their defaults.
unfoldable pub scenario_config : ConfigClass
scenario_config = record {
  declared =
      ("mode", some (text "success"))
      ∷ ("latency_ms", some (num (pos 0)))
      ∷ ("error_probability", some (real false "0.0"))
      ∷ ("error_code", some (num (negsuc 31999)))
      ∷ ("error_message", some (text "Internal error"))
      ∷ ("http_status", some (num (pos 200)))
      ∷ (
        "rate_limit_body",
        some (
            text
              "Rate limit exceeded. Reduce your request rate, or use an API key for a higher limit."),
      )
      ∷ ("rate_limit_style", some (text "status"))
      ∷ ("error_body", some null)
      ∷ ("unreadable_reply", some null)
      ∷ ("responses", some (obj end))
      ∷ ("corruption_mode", some null)
      ∷ ("missing_field", some null)
      ∷ ("blocks_behind", some (num (pos 0)))
      ∷ ("fail_first_n", some (num (pos 0)))
      ∷ ("then_mode", some (text "success"))
      ∷ ("drop_at", some (text "before_headers"))
      ∷ ("pause_at", some null)
      ∷ ("pause_ms", some (num (pos 0)))
      ∷ ("transports", some null)
      ∷ ("ports", some null)
      ∷ ("reply_headers", some null)
      ∷ ("reply_trailers", some null)
      ∷ [];
  validate = validate;
}
