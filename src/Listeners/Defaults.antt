-- ===== src/Listeners/Defaults.antt =====
-- provider_simulator/listeners/base.py: the hooks that a listener inherits when it does not override
-- them, for a parsed request that is a JSON object.
use Prim.Native.String.{◌++◌}
use provider_simulator.Base.{ℕ, String, Option, none, some, if◌then◌else◌}
use provider_simulator.Base.Dict
use provider_simulator.Base.Dict.{Dict, string_key}
use provider_simulator.Base.Int.{negsuc}
use provider_simulator.Base.Json.{Json, null, num, text, arr, obj, Fields, end, field, fields}
use provider_simulator.Base.Results.{Result, ok, err, type_error}
use provider_simulator.Domain.CallLog.{RequestId}
use provider_simulator.FaultPolicy.{ErrorCode, number, name, Scenario}
use provider_simulator.Listeners.Listener.{ServeResult, serve_result, respond, no_body, dropped}

-- body.get(key), for an object: an absent key and None are alike
abbrev pub value_of : String → Fields → Json
value_of key fs = Dict.get_or key null (fields fs)

abbrev pub code_value : ErrorCode → Json
code_value (number n) = num n
code_value (name s) = text s

-- {"jsonrpc": "2.0", "id": …, "error": {"code": …, "message": …}}
abbrev pub error_envelope : Json → Json → String → Json
error_envelope rid code message = obj (
    field "jsonrpc" (text "2.0") (
      field "id" rid
        (field "error" (obj (field "code" code (field "message" (text message) end))) end)))

-- None is no id.
abbrev pub as_id : Json → Option RequestId
as_id null = none
as_id (num n) = some (RequestId.num n)
as_id (text s) = some (RequestId.text s)
as_id v = some (RequestId.other v)

-- Listener.build_down
abbrev pub build_down : ServeResult
build_down = record (serve_result no_body) { status = 503 }

-- Listener.build_parse_error, with the text of the exception
abbrev pub build_parse_error : String → ServeResult
build_parse_error message = record (serve_result respond) {
  status = 400;
  body = error_envelope null (num (negsuc 32699)) ("Parse error: " ++ message);
}

-- A reply that the adapter writes.
abbrev pub written : ℕ → Json → ServeResult
written status body = record (serve_result respond) { status = status; body = body }

-- ServeResult(action="drop", drop_at=…)
abbrev pub dropped_at : String → ServeResult
dropped_at place = record (serve_result dropped) { drop_at = place }

-- Listener.corrupt
abbrev pub corrupt : ServeResult → String → Scenario → ServeResult × String
corrupt result label s =
    (record result { corruption_mode = s.corruption_mode; missing_field = s.missing_field }, label)

-- Listener.success_label
abbrev pub success_label : Json → String
success_label (obj fs) = if Dict.has "error" (fields fs) then "error" else "success"
success_label _ = "success"

-- Listener.response_id
abbrev pub response_id : Json → Option RequestId
response_id (obj fs) = as_id (value_of "id" fs)
response_id _ = none

-- Python looks a value up in a dict by its hash, which a list and an object do not have.
abbrev pub hashed : Json → Result Json
hashed (arr xs) = err type_error
hashed (obj fs) = err type_error
hashed v = ok v

-- None is no key.
abbrev pub not_none : Json → Option Json
not_none null = none
not_none v = some v

-- Listener.method_key
abbrev pub method_key : Fields → Option Json
method_key fs = not_none (value_of "method" fs)

-- Listener.request_id
abbrev pub request_id : Fields → Option RequestId
request_id fs = as_id (value_of "id" fs)
