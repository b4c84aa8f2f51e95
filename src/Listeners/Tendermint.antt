-- ===== src/Listeners/Tendermint.antt =====
-- provider_simulator/listeners/tendermint.py: the Tendermint RPC listener, an instance of the flow of a
-- request. The next number of the process's counter is an argument that the request carries.
-- json.loads, str.upper, str.strip, the texts that Python gives and the chain are parameters.
pub mod Malformed
mod Tests
use Prim.Native.String.{◌++◌}
use provider_simulator.Base.{
  ℕ, String, Bool, true, false, ◌&&◌, Option, none, some, List, [], ◌∷◌, leb, ltb, ◌==◌,
  if◌then◌else◌,
}
use provider_simulator.Base.Dict.{Dict}
use provider_simulator.Base.Int.{pos}
use provider_simulator.Base.Json.{
  Json, null, num, text, arr, obj, Items, nil, cons, Fields, end, field,
}
use provider_simulator.Base.Results.{Result, ok}
use provider_simulator.FaultPolicy.{
  Scenario, Verdict, Kind, no_fault, down, hang, drop, rate_limit, error,
}
use provider_simulator.Listeners.Defaults
use provider_simulator.Listeners.Defaults.{
  as_id, error_envelope, code_value, value_of, written, dropped_at,
}
use provider_simulator.Listeners.Listener.{
  Override, Parse, parsed, parse_error, ServeResult, serve_result, hung, Listener,
}

-- What the listener reads of a RawRequest: `query` as parse_qs gives it.
pub record Request : Type 0 where
  pub verb : String
  pub path : String
  pub query : Fields
  pub body : String
  pub headers : Dict String String
  pub next_id : ℕ

-- What the listener calls: json.loads, none where it raises ValueError; str.upper; str.strip("/");
-- the text of the exception of json.loads; the name of the type of a value; the chain.
pub record Calls (P : Type 0) : Type 0 where
  pub loads : String → Option Json
  pub upper : String → String
  pub strip : String → String
  pub fault_of : String → String
  pub type_of : Json → String
  pub build_success : P → Scenario → Result (ℕ × Json)

-- {"method": …, "params": …, "id": …}
pub record Call : Type 0 where
  pub method : String
  pub params : Fields
  pub id : Json

abbrev pub first_item : Items → Json
first_item nil = text ""
first_item (cons value rest) = value

-- A list is its first item, "" when it is empty.
abbrev pub unwrapped : Json → Json
unwrapped (arr values) = first_item values
unwrapped value = value

abbrev pub or_text : String → Option Json → Json
or_text s none = text s
or_text s (some value) = value

-- A text that is JSON is what it says.
abbrev pub decoded : (String → Option Json) → Json → Json
decoded loads (text s) = or_text s (loads s)
decoded loads value = value

unfoldable pub normalize : (String → Option Json) → Fields → Fields
normalize loads end = end
normalize loads (field key value rest) =
    field key (decoded loads (unwrapped value)) (normalize loads rest)

-- _normalize_params
abbrev pub normalize_params : (String → Option Json) → Json → Fields
normalize_params loads (obj raw) = normalize loads raw
normalize_params loads _ = end

module _ (calls : Calls Call) where
  -- A GET: the path is the method, the query the parameters.
  unfoldable pub parse_get : Request → Parse Call
  unfolding normalize
  parse_get request =
      let method : String = calls.strip request.path in
      if method == ""
      then parse_error "GET URI has no method (empty path)"
      else parsed (record {
        method = method;
        params = normalize calls.loads request.query;
        id = num (pos request.next_id);
      })

  abbrev pub named : Json → Fields → Parse Call
  named (text String.[]) fs = parse_error "POST body missing 'method' field"
  named (text method) fs = parsed (record {
    method = method;
    params = normalize_params calls.loads (value_of "params" fs);
    id = value_of "id" fs;
  })
  named _ fs = parse_error "POST body missing 'method' field"

  abbrev pub parse_value : String → Option Json → Parse Call
  parse_value body none = parse_error ("POST body not valid JSON: " ++ calls.fault_of body)
  parse_value body (some (obj fs)) = named (value_of "method" fs) fs
  parse_value body (some value) =
      parse_error ("POST body not a JSON object: " ++ calls.type_of value)

  -- Any other verb: a JSON-RPC body.
  unfoldable pub parse_post : Request → Parse Call
  parse_post request =
      if request.body == ""
      then parse_error "POST body is empty"
      else parse_value request.body (calls.loads request.body)

  unfoldable pub parse_request : Request → Parse Call
  unfolding parse_get parse_post
  parse_request request =
      if calls.upper request.verb == "GET" then parse_get request else parse_post request

abbrev pub envelope : Verdict → Call → ServeResult
envelope v call =
    written v.status (error_envelope call.id (code_value v.error_code) v.error_message)

unfoldable pub build_fault : Verdict → Call → ServeResult
build_fault v call = elim v.kind [
  | hang ↦ serve_result hung
  | drop ↦ dropped_at v.drop_at
  | rate_limit ↦ envelope v call
  | no_fault ↦ envelope v call
  | down ↦ envelope v call
  | error ↦ envelope v call
]

-- A reply outside 2xx reads `error`.
abbrev pub success_label : ℕ → Json → String
success_label status body =
    if leb 200 status && ltb status 300 then Defaults.success_label body else "error"

abbrev pub listener : Calls Call → Listener
listener calls = record {
  Request = Request;
  Parsed = Call;
  Key = String;
  headers = λ request. request.headers;
  body_for_history = λ request. none;
  path_for_history = λ request. none;
  parse_request = parse_request calls;
  method_key = λ call. some call.method;
  hashed = ok;
  build_body_override = λ o. none;
  build_down = Defaults.build_down;
  build_parse_error = Defaults.build_parse_error;
  build_fault = build_fault;
  build_content = λ call s request. calls.build_success call s;
  build_success = written;
  corrupt = Defaults.corrupt;
  success_label = λ status body call. success_label status body;
  request_method = λ call. call.method;
  request_id = λ call. as_id call.id;
  response_id = Defaults.response_id;
}
