-- ===== src/ControlApi/Responses.antt =====
-- provider_simulator/control_api.py: the `responses` of a block, and their stored form. A dictionary
-- that is keyed by pairs is the list of its [[verb, template], entry] pairs.
use provider_simulator.Base.{
  String, Bool, true, false, not, ◌&&◌, ◌||◌, [], ◌∷◌, any, if◌then◌else◌,
}
use provider_simulator.Base.Dict
use provider_simulator.Base.Dict.{Dict, string_key}
use provider_simulator.Base.Int.{pos}
use provider_simulator.Base.Json.{
  Json, null, num, text, arr, obj, Items, nil, cons, Fields, end, field, fields, is_text,
}
use provider_simulator.Base.Results.{Result, ok, err, value_error, type_error, ◌>>◌, raise_if}
use provider_simulator.ControlApi.Fields.{per_method_modes}
use provider_simulator.Domain.Scenario.{value_of, is_int_between}

-- mode is None or (isinstance(mode, str) and mode in _PER_METHOD_MODES)
abbrev pub is_per_method_mode : Json → Bool
is_per_method_mode null = true
is_per_method_mode value = any (λ name. is_text name value) per_method_modes

-- The mode of an entry that is an object: `error` and `port_closed` are refused, like any other name
-- that no listener applies.
unfoldable pub check_mode : Json → Result (Unit {0})
check_mode (obj cfg) =
    raise_if (not (is_per_method_mode (value_of "mode" (fields cfg)))) value_error
check_mode entry = ok tt

-- isinstance(status, int), from 200 to 299 or from 400 to 599
abbrev pub is_final_status : Json → Bool
is_final_status value = is_int_between 200 299 value || is_int_between 400 599 value

abbrev pub is_object : Json → Bool
is_object (obj fs) = true
is_object _ = false

-- A canned body: an object, without a mode, with statuses that are final.
unfoldable pub check_body : Dict String Json → Result (Unit {0})
check_body cfg = do
  raise_if (not (is_object (value_of "body" cfg))) value_error
  raise_if (Dict.has "mode" cfg) value_error
  raise_if
      (any (λ key. not (is_final_status (Dict.get_or key (num (pos 200)) cfg)))
        ("status" ∷ "http_status" ∷ []))
      value_error

-- An entry under the name of a method.
unfoldable pub check_entry : Json → Result (Unit {0})
unfolding check_mode check_body
check_entry (obj cfg) = do
  check_mode (obj cfg)
  if Dict.has "body" (fields cfg) then check_body (fields cfg) else ok tt
check_entry entry = ok tt

unfoldable pub check_entries : Fields → Result (Unit {0})
check_entries end = ok tt
check_entries (field method entry rest) = do check_entry entry; check_entries rest

abbrev pub is_hashable : Json → Bool
is_hashable (arr values) = false
is_hashable (obj fs) = false
is_hashable _ = true

-- [[verb, template], entry]; a list or an object for one of the two has no hash.
unfoldable pub check_pair : Json → Result (Unit {0})
unfolding check_mode
check_pair (arr (cons (arr (cons verb (cons template nil))) (cons entry nil))) = do
  check_mode entry
  raise_if (not (is_hashable verb && is_hashable template)) type_error
check_pair pair = err value_error

unfoldable pub check_pairs : Items → Result (Unit {0})
check_pairs nil = ok tt
check_pairs (cons pair rest) = do check_pair pair; check_pairs rest

abbrev pub same_text : Json → Json → Bool
same_text (text s) value = is_text s value
same_text _ _ = false

abbrev pub same_route : Json → Json → Bool
same_route (arr (cons (arr (cons verb (cons template nil))) (cons entry nil)))
      (arr (cons (arr (cons verb' (cons template' nil))) (cons entry' nil))) =
    same_text verb verb' && same_text template template'
same_route _ _ = false

-- out[(verb, template)] = entry, for a verb and a template that are texts
unfoldable pub put_route : Json → Items → Items
put_route pair nil = cons pair nil
put_route pair (cons old rest) =
    let later = put_route pair rest in
    if same_route pair old then cons pair rest else cons old later

unfoldable pub routes_from : Items → Items → Items
unfolding put_route
routes_from nil routes = routes
routes_from (cons pair rest) routes = routes_from rest (put_route pair routes)

-- _normalise_responses
unfoldable pub normalise_responses : Json → Result Json
unfolding check_entries check_pairs routes_from
normalise_responses (arr pairs) = do check_pairs pairs; ok (arr (routes_from pairs nil))
normalise_responses (obj entries) = do check_entries entries; ok (obj entries)
normalise_responses value = err value_error
