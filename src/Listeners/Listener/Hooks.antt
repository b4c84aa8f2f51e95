-- ===== src/Listeners/Listener/Hooks.antt =====
-- provider_simulator/listeners/base.py: what a request, a reply and an interface are, and the parts of
-- the flow that no hook takes part in.
use provider_simulator.Base.{
  ℕ, String, Bool, true, false, ◌&&◌, ◌||◌, Option, none, some, List, [], select, codes,
  if◌then◌else◌,
}
use provider_simulator.Base.Dict.{Dict}
use provider_simulator.Base.Json.{Json, null, num, text, is_truthy, is_prefix}
use provider_simulator.Base.Results.{Error, Result}
use provider_simulator.Domain.CallLog.{CallLog, Arrival, RequestId, record_body, record_path}
use provider_simulator.Domain.Endpoint.{Endpoint}
use provider_simulator.Domain.Scenario.Names.{lower}
use provider_simulator.FaultPolicy.{
  ErrorCode, Scenario, Verdict, Kind, no_fault, down, hang, drop, rate_limit, error,
}

-- respond | no_body | hang | drop
pub data Action : Type 0 where
  respond no_body hung dropped : Action

pub record ServeResult : Type 0 where
  pub action : Action
  pub status : ℕ
  pub body : Json
  pub drop_at : String
  pub latency_ms : ℕ
  pub pause_at : Option String
  pub pause_ms : ℕ
  pub corruption_mode : Option String
  pub missing_field : Option String
  pub suppress_body : Bool
  pub reply_headers : Dict String String
  pub reply_trailers : Dict String String

-- ServeResult(action=…): the other fields at their defaults.
abbrev pub serve_result : Action → ServeResult
serve_result action = record {
  action = action;
  status = 200;
  body = null;
  drop_at = "before_headers";
  latency_ms = 0;
  pause_at = none;
  pause_ms = 0;
  corruption_mode = none;
  missing_field = none;
  suppress_body = false;
  reply_headers = [];
  reply_trailers = [];
}

-- One entry of `responses`: the fault keys that it has, and the rest, which the hooks read. An entry
-- that is empty or no object is absent.
pub record Override : Type 0 where
  pub mode : Option String
  pub latency_ms : Option ℕ
  pub error_steps : Option ℕ
  pub error_code : Option ErrorCode
  pub error_message : Option String
  pub http_status : Option ℕ
  pub drop_at : Option String
  pub others : Dict String Json

-- What `parse_request` does: it gives the parsed request, or raises DirectResponse or ParseError.
pub data Parse (Parsed : Type 0) : Type 0 where
  parsed : Parsed → Parse Parsed
  direct : ServeResult → String → String → Option RequestId → Parse Parsed
  parse_error : String → Parse Parsed

-- The hooks of an interface. The success content can raise. `hashed` is no hook: it is the hash of a key,
-- which the look into `responses` takes and which raises for a key that has none.
pub record Listener : Type 1 where
  pub Request : Type 0
  pub Parsed : Type 0
  pub Key : Type 0
  pub headers : Request → Dict String String
  pub body_for_history : Request → Option (ℕ × String)
  pub path_for_history : Request → Option String
  pub parse_request : Request → Parse Parsed
  pub method_key : Parsed → Option Key
  pub hashed : Key → Result Key
  pub build_body_override : Override → Option ServeResult
  pub build_down : ServeResult
  pub build_parse_error : String → ServeResult
  pub build_fault : Verdict → Parsed → ServeResult
  pub build_content : Parsed → Scenario → Request → Result (ℕ × Json)
  pub build_success : ℕ → Json → ServeResult
  pub corrupt : ServeResult → String → Scenario → ServeResult × String
  pub success_label : ℕ → Json → Parsed → String
  pub request_method : Parsed → String
  pub request_id : Parsed → Option RequestId
  pub response_id : Json → Option RequestId

-- {k: v for k, v in headers.items() if k.lower().startswith("lava-")}
abbrev pub is_lava : String × String → Bool
is_lava (name, value) = is_prefix (codes "lava-") (lower (codes name))

unfoldable pub arrive : Endpoint → Dict String String → String → Option ℕ → Arrival
arrive ep headers headers_json deadline_remaining_ms = record {
  interface = ep.interface;
  transport = ep.transport;
  port = ep.port;
  lava_headers = select is_lava headers;
  headers_json = headers_json;
  deadline_remaining_ms = deadline_remaining_ms;
}

abbrev pub is_empty {ℓ} : {A : Type ℓ} → List A → Bool
is_empty [] = true
is_empty _ = false

unfoldable pub with_reply_headers :
    ServeResult → Dict String String → Dict String String → ServeResult
with_reply_headers result chosen trailers =
    if is_empty chosen && is_empty trailers
    then result
    else record result { reply_headers = chosen; reply_trailers = trailers }

abbrev pub is_some {ℓ} : {A : Type ℓ} → Option A → Bool
is_some none = false
is_some (some a) = true

-- any(k in method_cfg for k in _METHOD_OVERRIDE_KEYS)
abbrev pub has_fault_key : Override → Bool
has_fault_key o =
    is_some o.mode
    || is_some o.latency_ms
    || is_some o.error_steps
    || is_some o.error_code
    || is_some o.error_message
    || is_some o.http_status
    || is_some o.drop_at

abbrev pub or_kept {ℓ} : {A : Type ℓ} → Option A → A → A
or_kept none old = old
or_kept (some new) old = new

-- The block with the fault keys of the entry over it, the windowed mode included.
unfoldable pub merge : Override → String → Scenario → Scenario
merge o mode s = record s {
  mode = or_kept o.mode mode;
  latency_ms = or_kept o.latency_ms s.latency_ms;
  error_steps = or_kept o.error_steps s.error_steps;
  error_code = or_kept o.error_code s.error_code;
  error_message = or_kept o.error_message s.error_message;
  http_status = or_kept o.http_status s.http_status;
  drop_at = or_kept o.drop_at s.drop_at;
}

-- The mode, the latency and the block that a request is decided by.
unfoldable pub effective : Option Override → String → ℕ → Scenario → String × ℕ × Scenario
effective none mode latency s = (mode, latency, s)
effective (some o) mode latency s =
    if has_fault_key o
    then ((merge o mode s).mode, (merge o mode s).latency_ms, merge o mode s)
    else (mode, latency, s)

abbrev pub is_truthy_id : RequestId → Bool
is_truthy_id (RequestId.num n) = is_truthy (num n)
is_truthy_id (RequestId.text s) = is_truthy (text s)
is_truthy_id (RequestId.other v) = is_truthy v

-- a or b
abbrev pub or_id : Option RequestId → Option RequestId → Option RequestId
or_id none other = other
or_id (some id) other = if is_truthy_id id then some id else other

-- _STATUS_LABEL
abbrev pub status_label : Kind → String
status_label no_fault = "success"
status_label down = "down"
status_label hang = "hang"
status_label drop = "drop_connection"
status_label rate_limit = "rate_limit"
status_label error = "error"

-- What the flow has when it has decided: a reply with the label and the id of the row and whether
-- the provider waits, a per-method `down`, or an exception of the content.
pub data Decision : Type 0 where
  answer : ServeResult → String → Option RequestId → Bool → Decision
  refuse : Decision
  raise : Error → Decision

abbrev pub is_waiting : Action → Bool
is_waiting respond = true
is_waiting dropped = true
is_waiting _ = false

abbrev pub is_respond : Action → Bool
is_respond respond = true
is_respond _ = false

-- record_body and record_path, when the interface records them
unfoldable pub note_body : Option (ℕ × String) → ℕ → CallLog → CallLog
note_body none handle log = log
note_body (some (n, digest)) handle log = record_body log handle n digest

unfoldable pub note_path : Option String → ℕ → CallLog → CallLog
note_path none handle log = log
note_path (some path) handle log = record_path log handle path
