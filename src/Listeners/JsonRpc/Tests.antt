-- ===== src/Listeners/JsonRpc/Tests.antt =====
-- Runs of provider_simulator/listeners/base.py and jsonrpc.py.
use provider_simulator.Base.{
  ℕ, ◌≡◌, refl, false, String, Option, none, some, [], ◌∷◌, ◌==◌, if◌then◌else◌,
}
use provider_simulator.Base.Int.{pos, negsuc}
use provider_simulator.Base.Json.{Json, null, num, text, arr, obj, nil, Fields, end, field}
use provider_simulator.Base.Results.{ok, err, type_error}
use provider_simulator.Domain.CallLog.{new_log}
use provider_simulator.Domain.Endpoint.{Endpoint}
use provider_simulator.Domain.Provider.{Provider}
use provider_simulator.Domain.Quirks.{quirks}
use provider_simulator.FaultPolicy.{number, Scenario, targets}
use provider_simulator.Listeners.JsonRpc.{Request, Calls, parse_request, listener}
use provider_simulator.Listeners.JsonRpc.Replies.{
  listener-IsLabelling, serve-method_key, IsErrorReply, serve-IsErrorReply,
}
use provider_simulator.Listeners.Listener.{Override, ServeResult, serve}
use provider_simulator.Listeners.Listener.Settled.{IsCounted, IsSettled, serve-IsSettled}
use provider_simulator.Listeners.Listener.Untargeted.{serve-targets}

abbrev provider : Provider
provider = record {
  pool = "eth";
  pid = "1";
  name = "EthProvider1";
  is_backup = false;
  group_label = "";
  scenario = record { values = []; last_write_at = none };
  quirks_class = quirks;
  quirks = record { values = []; last_write_at = none };
  log = new_log "eth" "1" 2000 "EthProvider1";
  endpoints = [];
  fail_count = 0;
  executed = [];
}

abbrev scenario : String → Option ℕ → Scenario
scenario mode port = record {
  mode = mode;
  latency_ms = 7;
  error_steps = 0;
  error_code = number (negsuc 31999);
  error_message = "boom";
  http_status = 500;
  rate_limit_body = "";
  rate_limit_style = "status";
  error_body = null;
  corruption_mode = none;
  missing_field = none;
  blocks_behind = 0;
  fail_first_n = 0;
  then_mode = "success";
  drop_at = "before_headers";
  pause_at = none;
  pause_ms = 0;
  transports = none;
  ports = (elim port [ none ↦ none | some n ↦ some (n ∷ []) ]);
  reply_headers = [];
  reply_trailers = [];
}

abbrev http : Endpoint
http = record { interface = "jsonrpc"; transport = "http"; port = 8545 }

abbrev no_override : Json → Option Override
no_override key = none

-- {"method": []}
abbrev listed : Fields
listed = field "method" (arr nil) end

-- {"method": "eth_chainId", "id": 3}
abbrev chain_id : Fields
chain_id = field "method" (text "eth_chainId") (field "id" (num (pos 3)) end)

abbrev loads : String → Option Json
loads s =
    if s == "[]"
    then some (arr nil)
    else if s == "listed"
    then some (obj listed)
    else some (obj chain_id)

abbrev calls : Calls
calls = record {
  loads = loads;
  shown = λ v. "[]";
  build_success = λ fs s. ok (200, obj (field "result" (text "0x1") end));
}

abbrev request : String → Request
request body = record { body = body; headers = ("lava-x", "1") ∷ [] }

serve-IsSettled_example :
    IsSettled provider.log
      (serve
        (listener calls)
        (scenario "success" none)
        no_override
        http
        5
        (request "x")
        1
        "{}"
        2
        provider).0
      (serve
        (listener calls)
        (scenario "success" none)
        no_override
        http
        5
        (request "x")
        1
        "{}"
        2
        provider).1.log
serve-IsSettled_example =
    serve-IsSettled (listener calls) (scenario "success" none) no_override http 5 (request "x") 1
      "{}" 2 provider (listener-IsLabelling calls)

serve-targets_example :
    serve
      (listener calls)
      (scenario "down" (some 1))
      no_override
      http
      5
      (request "x")
      1
      "{}"
      2
      provider
    ≡ serve
        (listener calls)
        (scenario "error" (some 2))
        no_override
        http
        9
        (request "x")
        1
        "{}"
        2
        provider
unfolding targets
serve-targets_example =
    serve-targets (listener calls) (scenario "down" (some 1)) (scenario "error" (some 2))
      no_override no_override http 5 9 (request "x") 1 "{}" 2 provider refl refl (λ q. refl)

serve-method_key_example :
    ((serve
        (listener calls)
        (scenario "success" none)
        no_override
        http
        5
        (request "listed")
        1
        "{}"
        2
        provider).0
      ≡ err type_error)
    × IsCounted provider.log
        (serve
          (listener calls)
          (scenario "success" none)
          no_override
          http
          5
          (request "listed")
          1
          "{}"
          2
          provider).1.log
        "in_flight"
unfolding targets parse_request
serve-method_key_example =
    serve-method_key calls (scenario "success" none) no_override http 5 (request "listed") 1 "{}" 2
      provider listed (record { targeted = refl; steady = refl; up = refl }) refl tt

serve-IsErrorReply_example :
    (result : ServeResult) × ((serve
        (listener calls)
        (scenario "error" none)
        no_override
        http
        5
        (request "x")
        1
        "{}"
        2
        provider).0
      ≡ ok result)
    × IsErrorReply (scenario "error" none) chain_id result
unfolding targets parse_request
serve-IsErrorReply_example =
    serve-IsErrorReply calls (scenario "error" none) no_override http 5 (request "x") 1 "{}" 2
      provider chain_id "eth_chainId" refl refl refl refl refl refl
