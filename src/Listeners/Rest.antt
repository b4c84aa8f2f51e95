-- ===== src/Listeners/Rest.antt =====
-- provider_simulator/listeners/rest.py: the REST listener, an instance of the flow of a request. The
-- table of routes, the match of a route, json.loads, str.upper, str.lower, str of a value, the digest
-- of a body and the chain are parameters. The next number of the process's counter is carried by the
-- request.
pub mod Labels
mod Tests
use Prim.Native.String.{◌++◌}
use provider_simulator.Base.{
  ℕ, String, Bool, true, false, ◌&&◌, ◌||◌, not, Option, none, some, List, [], ◌∷◌, leb, ltb,
  nat_eq, is_one_of, ◌==◌, if◌then◌else◌,
}
use provider_simulator.Base.Dict.{Dict}
use provider_simulator.Base.Int.{pos}
use provider_simulator.Base.Json.{
  Json, null, text, arr, obj, Items, nil, cons, Fields, end, field, is_truthy,
}
use provider_simulator.Base.Results.{Result, ok, err}
use provider_simulator.Domain.CallLog.{RequestId}
use provider_simulator.Domain.Endpoint.{Endpoint}
use provider_simulator.Domain.Provider.{Provider}
use provider_simulator.FaultPolicy.{
  Scenario, Verdict, Kind, no_fault, down, hang, drop, rate_limit, error,
}
use provider_simulator.Listeners.Defaults
use provider_simulator.Listeners.Defaults.{code_value, value_of, written, dropped_at}
use provider_simulator.Listeners.Listener.{
  Override, Parse, parsed, ServeResult, serve_result, hung, is_respond, Listener, serve,
}

-- What the listener reads of a RawRequest: `query` as parse_qs gives it.
pub record Request : Type 0 where
  pub verb : String
  pub path : String
  pub query : Fields
  pub body : String
  pub headers : Dict String String
  pub next_id : ℕ

-- What parse_request gives.
pub record Parsed : Type 0 where
  pub verb : String
  pub route_verb : String
  pub template : Option String
  pub path : String
  pub path_params : Dict String String
  pub query : Fields
  pub body : Json
  pub request_id : RequestId

-- What the listener calls: the verbs and templates of the routes, the groups of the match of a
-- template with a path, json.loads, none where it raises ValueError, str.upper, str.lower, str of a
-- value, the length and the digest of a body, and the chain.
pub record Calls : Type 0 where
  pub routes : List (String × String)
  pub match_of : String → String → Option (Dict String String)
  pub loads : String → Option Json
  pub upper : String → String
  pub lower : String → String
  pub shown : Json → String
  pub digest : String → ℕ × String
  pub build_success : Parsed → Scenario → Result (ℕ × Json)

-- _ROUTE_VERB.get(verb, verb)
abbrev pub route_verb_of : String → String
route_verb_of verb = if verb == "HEAD" then "GET" else verb

abbrev pub first_or_null : Items → Json
first_or_null nil = null
first_or_null (cons value rest) = value

abbrev pub unwrapped : Json → Json
unwrapped (arr values) = first_or_null values
unwrapped value = value

-- _caller_request_id, in the headers and before them in the query
abbrev pub id_in_headers : (String → String) → Dict String String → Option String
id_in_headers lower [] = none
id_in_headers lower ((name, value) ∷ rest) =
    if lower name == "x-request-id" && not (value == "")
    then some value
    else id_in_headers lower rest

unfoldable pub caller_request_id : Calls → Request → Option String
caller_request_id calls request =
    let value : Json = unwrapped (value_of "request_id" request.query) in
    if is_truthy value then some (calls.shown value) else id_in_headers calls.lower request.headers

-- … or _next_request_id()
abbrev pub id_or_next : Option String → ℕ → RequestId
id_or_next none next = RequestId.num (pos next)
id_or_next (some String.[]) next = RequestId.num (pos next)
id_or_next (some id) next = RequestId.text id

abbrev pub matched :
    String
    → Option (Dict String String)
    → Option (String × Dict String String)
    → Option (String × Dict String String)
matched template none rest = rest
matched template (some groups) rest = some (template, groups)

-- The first route of the verb that matches the path.
unfoldable pub find_route :
    (String → String → Option (Dict String String))
    → String
    → String
    → List (String × String)
    → Option (String × Dict String String)
find_route match_of verb path [] = none
find_route match_of verb path ((known, template) ∷ rest) =
    let later = find_route match_of verb path rest in
    if known == verb then matched template (match_of template path) later else later

abbrev pub body_value : (String → Option Json) → String → Json
body_value loads String.[] = null
body_value loads body = elim (loads body) [ none ↦ null | some value ↦ value ]

abbrev pub template_of : Option (String × Dict String String) → Option String
template_of none = none
template_of (some (template, groups)) = some template

abbrev pub groups_of : Option (String × Dict String String) → Dict String String
groups_of none = []
groups_of (some (template, groups)) = groups

unfoldable pub read_request : Calls → Request → Parsed
unfolding caller_request_id find_route
read_request calls request =
    let verb : String = calls.upper request.verb in
    let route : Option (String × Dict String String) =
      find_route calls.match_of (route_verb_of verb) request.path calls.routes in
    record {
      verb = verb;
      route_verb = route_verb_of verb;
      template = template_of route;
      path = request.path;
      path_params = groups_of route;
      query = request.query;
      body = body_value calls.loads request.body;
      request_id = id_or_next (caller_request_id calls request) request.next_id;
    }

-- {"code": …, "message": …}
abbrev pub fault_body : Verdict → ServeResult
fault_body v =
    written v.status
      (obj (field "code" (code_value v.error_code) (field "message" (text v.error_message) end)))

unfoldable pub build_fault : Verdict → Parsed → ServeResult
build_fault v request = elim v.kind [
  | hang ↦ serve_result hung
  | drop ↦ dropped_at v.drop_at
  | rate_limit ↦ fault_body v
  | no_fault ↦ fault_body v
  | down ↦ fault_body v
  | error ↦ fault_body v
]

abbrev pub method_key : Parsed → Option (String × String)
method_key request = elim request.template [
  | none ↦ none
  | some template ↦ some (request.route_verb, template)
]

abbrev pub is_unknown : Option String → Bool
is_unknown none = true
is_unknown (some template) = false

abbrev pub success_label : ℕ → Json → Parsed → String
success_label status body request =
    if nat_eq status 404 && is_unknown request.template
    then "not_found"
    else if leb 200 status && ltb status 300
    then Defaults.success_label body
    else "error"

-- GET and HEAD carry no body.
abbrev pub body_for_history : Calls → Request → Option (ℕ × String)
body_for_history calls request =
    if is_one_of (calls.upper request.verb) ("GET" ∷ "HEAD" ∷ [])
    then none
    else some (calls.digest request.body)

abbrev pub request_method : Parsed → String
request_method request = elim request.template [
  | none ↦ request.verb ++ (" " ++ request.path)
  | some template ↦ request.verb ++ (" " ++ template)
]

abbrev pub listener : Calls → Listener
listener calls = record {
  Request = Request;
  Parsed = Parsed;
  Key = String × String;
  headers = λ request. request.headers;
  body_for_history = body_for_history calls;
  path_for_history = λ request. none;
  parse_request = λ request. parsed (read_request calls request);
  method_key = method_key;
  hashed = ok;
  build_body_override = λ o. none;
  build_down = Defaults.build_down;
  build_parse_error = Defaults.build_parse_error;
  build_fault = build_fault;
  build_content = λ q s request. calls.build_success q s;
  build_success = written;
  corrupt = Defaults.corrupt;
  success_label = success_label;
  request_method = request_method;
  request_id = λ request. some request.request_id;
  response_id = λ body. none;
}

-- The bytes of a reply to HEAD are withheld.
abbrev pub withhold : Bool → Result ServeResult → Result ServeResult
withhold head (err e) = err e
withhold head (ok result) =
    ok (if head && is_respond result.action then record result { suppress_body = true } else result)

-- RestListener.serve
unfoldable pub serve_rest :
    Calls
    → Scenario
    → (String × String → Option Override)
    → Endpoint
    → ℕ
    → Request
    → ℕ
    → String
    → ℕ
    → Provider
    → Result ServeResult × Provider
serve_rest calls s responses ep draw request came headers_json now p =
    let (reply, p') = serve (listener calls) s responses ep draw request came headers_json now p in
    (withhold (calls.upper request.verb == "HEAD") reply, p')
