-- ===== src/Listeners/JsonRpc.antt =====
-- provider_simulator/listeners/jsonrpc.py: the JSON-RPC listener, an instance of the flow of a
-- request. json.loads, str of a method that is no text, and the chain of the provider are parameters.
pub mod Replies
mod Tests
use provider_simulator.Base.{
  ℕ, String, Bool, true, false, Option, none, some, List, [], if◌then◌else◌,
}
use provider_simulator.Base.Dict
use provider_simulator.Base.Dict.{Dict, string_key}
use provider_simulator.Base.Int.{pos, negsuc}
use provider_simulator.Base.Json.{Json, null, num, text, arr, obj, Fields, end, fields}
use provider_simulator.Base.Results.{Result}
use provider_simulator.FaultPolicy.{
  Scenario, Verdict, Kind, no_fault, down, hang, drop, rate_limit, error,
}
use provider_simulator.Listeners.Defaults
use provider_simulator.Listeners.Defaults.{
  error_envelope, code_value, value_of, written, dropped_at,
}
use provider_simulator.Listeners.Listener.{
  Override, Parse, parsed, direct, ServeResult, serve_result, hung, Listener,
}

-- What the listener reads of a RawRequest.
pub record Request : Type 0 where
  pub body : String
  pub headers : Dict String String

-- What the listener calls: json.loads, none where it raises ValueError; str; the chain.
pub record Calls : Type 0 where
  pub loads : String → Option Json
  pub shown : Json → String
  pub build_success : Fields → Scenario → Result (ℕ × Json)

abbrev pub batch_reply : ServeResult
batch_reply =
    written 200 (error_envelope null (num (negsuc 32599)) "batch requests are not supported")

-- A body that is no JSON, or neither an object nor a list, is an empty request.
abbrev pub parse_value : Option Json → Parse Fields
parse_value (some (arr xs)) = direct batch_reply "batch" "error" none
parse_value (some (obj fs)) = parsed fs
parse_value _ = parsed end

unfoldable pub parse_request : (String → Option Json) → Request → Parse Fields
parse_request loads request = elim request.body [
  | String.[] ↦ parsed end
  | String.◌∷◌ c s ↦ parse_value (loads request.body)
]

-- rid = 1 if rid is None else rid
abbrev pub or_one : Json → Json
or_one null = num (pos 1)
or_one v = v

unfoldable pub envelope : Verdict → Fields → ServeResult
envelope v fs =
    written v.status
      (error_envelope (or_one (value_of "id" fs)) (code_value v.error_code) v.error_message)

unfoldable pub build_fault : Verdict → Fields → ServeResult
unfolding envelope
build_fault v fs = elim v.kind [
  | hang ↦ serve_result hung
  | drop ↦ dropped_at v.drop_at
  | rate_limit ↦ written v.status (text v.rate_limit_body)
  | no_fault ↦ envelope v fs
  | down ↦ envelope v fs
  | error ↦ envelope v fs
]

-- method_cfg.get("status", 200), which validation keeps a whole number
abbrev pub status_or_200 : Option Json → ℕ
status_or_200 (some (num (pos n))) = n
status_or_200 _ = 200

abbrev pub canned_body : Override → Json → Option ServeResult
canned_body o null = none
canned_body o body = some (written (status_or_200 (Dict.get "status" o.others)) body)

unfoldable pub build_body_override : Override → Option ServeResult
build_body_override o = canned_body o (Dict.get_or "body" null o.others)

-- request.get("method", "unknown")
abbrev pub method_of : (Json → String) → Option Json → String
method_of shown none = "unknown"
method_of shown (some (text s)) = s
method_of shown (some v) = shown v

abbrev pub listener : Calls → Listener
listener calls = record {
  Request = Request;
  Parsed = Fields;
  Key = Json;
  headers = λ request. request.headers;
  body_for_history = λ request. none;
  path_for_history = λ request. none;
  parse_request = parse_request calls.loads;
  method_key = Defaults.method_key;
  hashed = Defaults.hashed;
  build_body_override = build_body_override;
  build_down = Defaults.build_down;
  build_parse_error = Defaults.build_parse_error;
  build_fault = build_fault;
  build_content = λ fs s request. calls.build_success fs s;
  build_success = written;
  corrupt = Defaults.corrupt;
  success_label = λ status body fs. Defaults.success_label body;
  request_method = λ fs. method_of calls.shown (Dict.get "method" (fields fs));
  request_id = Defaults.request_id;
  response_id = Defaults.response_id;
}
