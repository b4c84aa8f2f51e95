-- ===== src/Listeners/Tendermint/Tests.antt =====
-- Runs of provider_simulator/listeners/tendermint.py.
use provider_simulator.Base.{◌≡◌, refl, false, String, Option, none, some, [], ◌==◌, if◌then◌else◌}
use provider_simulator.Base.Int.{pos, negsuc}
use provider_simulator.Base.Json.{null, num, text, arr, obj, nil, cons, end, field}
use provider_simulator.Base.Results.{ok}
use provider_simulator.Domain.CallLog.{new_log}
use provider_simulator.Domain.Endpoint.{Endpoint}
use provider_simulator.Domain.Provider.{Provider}
use provider_simulator.Domain.Quirks.{quirks}
use provider_simulator.FaultPolicy.{number, Scenario, targets}
use provider_simulator.Listeners.Listener.{Override, parsed, ServeResult, serve}
use provider_simulator.Listeners.Tendermint.{
  Request, Calls, Call, parse_request, parse_get, normalize, listener,
}
use provider_simulator.Listeners.Tendermint.Malformed.{IsParseErrorReply, serve-parse_error}

abbrev calls : Calls Call
calls = record {
  loads = λ s. if s == "5" then some (num (pos 5)) else if s == "{}" then some (obj end) else none;
  upper = λ s. s;
  strip = λ s. if s == "/block" then "block" else s;
  fault_of = λ s. "Expecting value";
  type_of = λ v. "list";
  build_success = λ call s. ok (200, call.id);
}

abbrev request : String → String → String → Request
request verb path body = record {
  verb = verb;
  path = path;
  query = field "height" (arr (cons (text "5") nil)) end;
  body = body;
  headers = [];
  next_id = 9;
}

-- GET /block?height=5
get_block :
    parse_request calls (request "GET" "/block" "")
    ≡ parsed
        (record { method = "block"; params = field "height" (num (pos 5)) end; id = num (pos 9) })
unfolding parse_request parse_get normalize
get_block = refl

abbrev provider : Provider
provider = record {
  pool = "lava";
  pid = "1";
  name = "LavaProvider1";
  is_backup = false;
  group_label = "";
  scenario = record { values = []; last_write_at = none };
  quirks_class = quirks;
  quirks = record { values = []; last_write_at = none };
  log = new_log "lava" "1" 2000 "LavaProvider1";
  endpoints = [];
  fail_count = 0;
  executed = [];
}

abbrev scenario : Scenario
scenario = record {
  mode = "hang";
  latency_ms = 0;
  error_steps = 0;
  error_code = number (negsuc 31999);
  error_message = "";
  http_status = 200;
  rate_limit_body = "";
  rate_limit_style = "status";
  error_body = null;
  corruption_mode = none;
  missing_field = none;
  blocks_behind = 0;
  fail_first_n = 0;
  then_mode = "success";
  drop_at = "before_headers";
  pause_at = none;
  pause_ms = 0;
  transports = none;
  ports = none;
  reply_headers = [];
  reply_trailers = [];
}

abbrev http : Endpoint
http = record { interface = "tendermintrpc"; transport = "http"; port = 26657 }

abbrev no_override : String → Option Override
no_override key = none

serve-parse_error_example :
    (message : String) × (result : ServeResult) × ((serve
        (listener calls)
        scenario
        no_override
        http
        5
        (request "POST" "/" "{}")
        1
        "{}"
        2
        provider).0
      ≡ ok result)
    × IsParseErrorReply scenario message result
unfolding targets
serve-parse_error_example =
    serve-parse_error calls scenario no_override http 5 (request "POST" "/" "{}") 1 "{}" 2 provider
      (record { targeted = refl; steady = refl; up = refl }) refl
